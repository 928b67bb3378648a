-- ===== src/Base/HashMap.antt =====
-- std::unordered_map, hash_map and std::unordered_set as association lists. The order of a list is
-- the order in which the program iterates, which the standard leaves open.
use mathlib.Core.Path.{◌≡◌, refl, subst}
use mathlib.Core.Logic.{inl, inr}
use mathlib.Core.List.{List, [], ◌∷◌}
use mathlib.Core.Option.{Option, none, some}
use native.Mathlib.Omega.{arith}
use libevrpc.Base.Tests.{if◌then◌else◌, Eq, Bool-cases, Option-cases}

module _ {ℓ κ} {K : Type ℓ} {V : Type κ} ⦃e : Eq K⦄ where
  unfoldable pub find : K → List (K × V) → Option V
  find k [] = none
  find k ((j, v) ∷ m) = if e.beq j k then some v else find k m

  -- operator[] = v: replaces or adds.
  unfoldable pub put : K → V → List (K × V) → List (K × V)
  put k v [] = (k, v) ∷ []
  put k v ((j, w) ∷ m) = if e.beq j k then (k, v) ∷ m else (j, w) ∷ put k v m

  -- insert(make_pair(k, v)): an entry that is there stays.
  unfoldable pub insert : K → V → List (K × V) → List (K × V)
  unfolding find put
  insert k v m = elim (find k m) [ none ↦ put k v m | some w ↦ m ]

  unfoldable pub erase : K → List (K × V) → List (K × V)
  erase k [] = []
  erase k ((j, w) ∷ m) = if e.beq j k then erase k m else (j, w) ∷ erase k m

  pub find-put :
      (k j : K) (v : V) (m : List (K × V))
      → find j (put k v m) ≡ (if e.beq k j then some v else find j m)
  unfolding find put
  find-put k j v [] = refl
  find-put k j v ((i, w) ∷ m) =
      ground (arith, e.beq_iff k j, e.beq_iff i k, e.beq_iff i j, find-put k j v m)

  pub find-insert :
      (k j : K) (v : V) (m : List (K × V))
      → find j (insert k v m)
        ≡ elim (find j m) [ some w ↦ some w | none ↦ (if e.beq k j then some v else none) ]
  unfolding insert
  find-insert k j v m = ground (arith, find-put k j v m, e.beq_iff k j)

  pub find-erase :
      (k j : K) (m : List (K × V)) → find j (erase k m) ≡ (if e.beq k j then none else find j m)
  unfolding find erase
  find-erase k j [] = ground arith
  find-erase k j ((i, w) ∷ m) =
      ground (arith, e.beq_iff k j, e.beq_iff i k, e.beq_iff i j, find-erase k j m)

-- A property of all keys.
module _ {K V : Type 0} ⦃e : Eq K⦄ (P : K → Type 0) where
  abbrev pub AllKeys : List (K × V) → Type 0
  AllKeys [] = Unit
  AllKeys ((k, v) ∷ m) = P k × AllKeys m

  pub AllKeys-put : (k : K) (v : V) (m : List (K × V)) → P k → AllKeys m → AllKeys (put k v m)
  unfolding put
  AllKeys-put k v [] p a = (p, tt)
  AllKeys-put k v ((j, w) ∷ m) p a = elim (Bool-cases (e.beq j k)) [
    | inl same ↦ rw same (p, a.1)
    | inr other ↦ rw other (a.0, AllKeys-put k v m p a.1)
  ]

  pub AllKeys-insert : (k : K) (v : V) (m : List (K × V)) → P k → AllKeys m → AllKeys (insert k v m)
  unfolding insert
  AllKeys-insert k v m p a = elim (Option-cases (find k m)) [
    | inl e' ↦ rw (e', insert) (AllKeys-put k v m p a)
    | inr (w, e') ↦ rw (e', insert) a
  ]

  pub AllKeys-find : (k : K) (v : V) (m : List (K × V)) → AllKeys m → find k m ≡ some v → P k
  unfolding find
  AllKeys-find k v [] a h = cc
  AllKeys-find k v ((j, w) ∷ m) a h = elim (Bool-cases (e.beq j k)) [
    | inl same ↦ subst P ((e.beq_iff j k).0 same) a.0
    | inr other ↦ AllKeys-find k v m a.1 (rw other at h)
  ]
