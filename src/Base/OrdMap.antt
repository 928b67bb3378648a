-- ===== src/Base/OrdMap.antt =====
-- std::map<uint32_t, V> as a list of entries with rising keys. A position is an index, and the
-- length of the list is end().
use Prim.Native.Nat.{ℕ, suc, ◌≤◌, ◌<◌}
use mathlib.Core.Path.{◌≡◌, refl}
use mathlib.Core.Logic.{◌⊎◌, inl, inr}
use mathlib.Core.List.{List, [], ◌∷◌, ◌++◌}
use mathlib.Core.Option.{Option, none, some}
use native.Mathlib.Omega.{arith}
use libevrpc.Base.Tests.{ltb, ◌==◌, if◌then◌else◌, Bool-cases}
use libevrpc.Base.Lists.{length, get_elem?, All}

module _ {V : Type 0} where
  unfoldable pub find : ℕ → List (ℕ × V) → Option V
  find k [] = none
  find k ((j, v) ∷ m) = if j == k then some v else find k m

  -- insert(make_pair(k, v)): an entry that is there stays.
  unfoldable pub insert : ℕ → V → List (ℕ × V) → List (ℕ × V)
  insert k v [] = (k, v) ∷ []
  insert k v ((j, w) ∷ m) =
      let rest = insert k v m in
      if ltb k j then (k, v) ∷ (j, w) ∷ m else if k == j then (j, w) ∷ m else (j, w) ∷ rest

  -- The position of the first key that is not below k.
  unfoldable pub lower_bound : ℕ → List (ℕ × V) → ℕ
  lower_bound k [] = 0
  lower_bound k ((j, w) ∷ m) = let rest = lower_bound k m in if ltb j k then suc rest else 0

  -- Every key lies above a bound.
  abbrev pub Above : ℕ → List (ℕ × V) → Type 0
  Above k [] = Unit
  Above k ((j, w) ∷ m) = (k < j) × Above k m

  abbrev pub IsSorted : List (ℕ × V) → Type 0
  IsSorted [] = Unit
  IsSorted ((k, v) ∷ m) = Above k m × IsSorted m

  pub Above-mono : (j k : ℕ) (m : List (ℕ × V)) → j ≤ k → Above k m → Above j m
  Above-mono j k [] h a = tt
  Above-mono j k ((i, v) ∷ m) h a = (omega arith, Above-mono j k m h a.1)

  pub find-Above : (j k : ℕ) (m : List (ℕ × V)) → Above k m → j ≤ k → find j m ≡ none
  unfolding find
  find-Above j k [] a h = refl
  find-Above j k ((i, v) ∷ m) a h = ground (arith, find-Above j k m a.1)

  Above-insert : (j k : ℕ) (v : V) (m : List (ℕ × V)) → j < k → Above j m → Above j (insert k v m)
  unfolding insert
  Above-insert j k v [] h a = (h, tt)
  Above-insert j k v ((i, w) ∷ m) h a = ground (arith, Above-insert j k v m h a.1)

  pub insert-IsSorted : (k : ℕ) (v : V) (m : List (ℕ × V)) → IsSorted m → IsSorted (insert k v m)
  unfolding insert
  insert-IsSorted k v [] s = (tt, tt)
  insert-IsSorted k v ((j, w) ∷ m) s =
      ground (arith, insert-IsSorted k v m s.1, Above-insert j k v m, Above-mono k j m)

  -- The entry that was there first wins.
  pub find-insert :
      (k j : ℕ) (v : V) (m : List (ℕ × V))
      → IsSorted m
      → find j (insert k v m)
        ≡ elim (find j m) [ some w ↦ some w | none ↦ (if k == j then some v else none) ]
  unfolding find insert
  find-insert k j v [] s = refl
  find-insert k j v ((i, w) ∷ m) s = ground (arith, find-insert k j v m s.1, find-Above j i m s.0)

  -- Inserting what is there changes nothing.
  pub insert_found :
      (k : ℕ) (v w : V) (m : List (ℕ × V)) → IsSorted m → find k m ≡ some w → insert k v m ≡ m
  unfolding find insert
  insert_found k v w [] s h = cc
  insert_found k v w ((j, u) ∷ m) s h =
      ground (arith, insert_found k v w m s.1, find-Above k j m s.0)

  -- Entries above all keys go to the end.
  pub insert-last :
      (k : ℕ) (v : V) (m : List (ℕ × V))
      → All (λ (e : ℕ × V). e.0 < k) m
      → insert k v m ≡ m ++ (k, v) ∷ []
  unfolding insert
  insert-last k v [] a = refl
  insert-last k v ((j, w) ∷ m) a = ground (arith, insert-last k v m a.1)

  -- lower_bound is end(), and no key is that high; or it points at the least such key.
  pub lower_bound_cases :
      (k : ℕ) (m : List (ℕ × V))
      → IsSorted m
      → ((lower_bound k m ≡ length m) × ((j : ℕ) → k ≤ j → find j m ≡ none))
        ⊎ ((i : ℕ) × (v : V) × (get_elem? m (lower_bound k m) ≡ some (i, v))
            × (find i m ≡ some v)
            × (k ≤ i)
            × ((j : ℕ) → k ≤ j → j < i → find j m ≡ none))
  unfolding find lower_bound
  lower_bound_cases k [] s = inl (refl, λ j h. refl)
  lower_bound_cases k ((i, v) ∷ m) s = elim (Bool-cases (ltb i k)) [
    | inr here ↦ rw here (
        inr (i, v, refl, ground arith, ground arith, λ j h l. ground (arith, find-Above j i m s.0)))
    | inl below ↦ rw below (elim (lower_bound_cases k m s.1) [
      | inl (e, f) ↦ inl (omega arith, λ j h. ground (arith, f j h))
      | inr (i', v', g, f, h, l) ↦
          inr (i', v', g, ground arith, h, λ j a b. ground (arith, l j a b))
    ])
  ]

  -- A sorted map is what it finds.
  pub IsSorted-ext :
      (m n : List (ℕ × V)) → IsSorted m → IsSorted n → ((j : ℕ) → find j m ≡ find j n) → m ≡ n
  unfolding find
  IsSorted-ext [] [] s t h = refl
  IsSorted-ext [] ((k, w) ∷ n) s t h = absurd (ground (arith, h k))
  IsSorted-ext ((j, v) ∷ m) [] s t h = absurd (ground (arith, h j))
  IsSorted-ext ((j, v) ∷ m) ((k, w) ∷ n) s t h =
      let same_key : j ≡ k = ground (arith, h j, h k, find-Above j k n t.0, find-Above k j m s.0) in
      let same : v ≡ w = ground (arith, h j) in
      let rest : m ≡ n =
        IsSorted-ext m n s.1 t.1
          (λ i. ground (arith, h i, find-Above i j m s.0, find-Above i k n t.0)) in
      cc
