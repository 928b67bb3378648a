-- ===== src/RpcCenter/Ring/Walks.antt =====
-- Which centers the walks of src/rpc_center/rpc_center.cpp pick, and when they read end().
use libevrpc.Base.{
  ℕ, zero, suc, ◌+◌, ◌≤◌, ◌<◌, ◌≡◌, refl, ◌⊎◌, inl, inr, none, some, List, [], ◌∷◌, ◌++◌, length,
  get_elem?, arith, ◌∙◌, ap,
}
use native.Mathlib.Decide.{dec_lt}
use libevrpc.Base.Fault.{Run, ok, fault}
use libevrpc.Base.Bytes.{Bytes}
use libevrpc.Base.OrdMap.{lower_bound}
use libevrpc.LoadBalancer.{hash_id}
use libevrpc.RpcCenter.Ring.{CenterHashMap, advance, server_walk, should_reporter}

get_elem?_lt :
    (m : CenterHashMap) (i : ℕ) → i < length m → (e : ℕ × Bytes) × (get_elem? m i ≡ some e)
get_elem?_lt [] i h = elim h [ ]
get_elem?_lt (x ∷ m) zero h = (x, refl)
get_elem?_lt (x ∷ m) (suc i) h = get_elem?_lt m i (omega arith)

get_elem?_ge : (m : CenterHashMap) (i : ℕ) → length m ≤ i → get_elem? m i ≡ none
get_elem?_ge [] i h = refl
get_elem?_ge (x ∷ m) zero h = absurd (omega arith)
get_elem?_ge (x ∷ m) (suc i) h = get_elem?_ge m i (omega arith)

lower_bound-le : (k : ℕ) (m : CenterHashMap) → lower_bound k m ≤ length m
unfolding lower_bound
lower_bound-le k [] = omega arith
lower_bound-le k ((j, v) ∷ m) = ground (arith, lower_bound-le k m)

server_walk_fault :
    (n i : ℕ) (m : CenterHashMap) (out : List Bytes)
    → length m ≤ advance i m
    → server_walk (suc n) i m out ≡ fault
unfolding server_walk
server_walk_fault n i m out h = rw (get_elem?_ge m (advance i m) h, server_walk)

server_walk_step :
    (n i : ℕ) (m : CenterHashMap) (out : List Bytes) (e : ℕ × Bytes)
    → get_elem? m (advance i m) ≡ some e
    → server_walk (suc n) i m out ≡ server_walk n (advance i m) m (out ++ e.1 ∷ [])
unfolding server_walk
server_walk_step n i m out e h = rw (h, server_walk)

-- The ring is too short behind a position: one to three centers follow, or it stands at end() and
-- the whole ring has fewer than three.
abbrev pub TooShort : CenterHashMap → ℕ → Type 0
TooShort m p = ((p < length m) × (length m ≤ p + 3)) ⊎ ((p ≡ length m) × (length m < 3))

-- The three positions that a walk reads.
abbrev pub Picks : CenterHashMap → ℕ → Run (List Bytes) → Type 0
Picks m p r =
    (a : ℕ × Bytes) × (b : ℕ × Bytes) × (c : ℕ × Bytes) × (get_elem? m (advance p m) ≡ some a)
    × (get_elem? m (advance p m + 1) ≡ some b)
    × (get_elem? m (advance p m + 2) ≡ some c)
    × (r ≡ ok (a.1 ∷ b.1 ∷ c.1 ∷ []))

server_walk_done : (i : ℕ) (m : CenterHashMap) (out : List Bytes) → server_walk 0 i m out ≡ ok out
unfolding server_walk
server_walk_done i m out = refl

advance-lt : (q : ℕ) (m : CenterHashMap) → q < length m → advance q m ≡ q + 1
advance-lt q m h = ground arith

-- A round inside the ring, and one that leaves it.
server_walk_on :
    (n q : ℕ) (m : CenterHashMap) (out : List Bytes) (e : ℕ × Bytes)
    → q < length m
    → get_elem? m (q + 1) ≡ some e
    → server_walk (suc n) q m out ≡ server_walk n (q + 1) m (out ++ e.1 ∷ [])
server_walk_on n q m out e h g =
    let a = advance-lt q m h in
    server_walk_step n q m out e (ap (get_elem? m) a ∙ g)
    ∙ ap (λ i. server_walk n i m (out ++ e.1 ∷ [])) a

server_walk_off :
    (n q : ℕ) (m : CenterHashMap) (out : List Bytes)
    → q < length m
    → length m ≤ q + 1
    → server_walk (suc n) q m out ≡ fault
server_walk_off n q m out h k = server_walk_fault n q m out (ground arith)

abbrev Two : ℕ → CenterHashMap → List Bytes → Type 0
Two q m out =
    ((length m ≤ q + 2) × (server_walk 2 q m out ≡ fault))
    ⊎ ((q + 2 < length m)
        × (b : ℕ × Bytes) × (c : ℕ × Bytes) × (get_elem? m (q + 1) ≡ some b)
        × (get_elem? m (q + 2) ≡ some c)
        × (server_walk 2 q m out ≡ ok ((out ++ b.1 ∷ []) ++ c.1 ∷ [])))

-- After the first round the walk goes straight on.
server_walk-Two : (q : ℕ) (m : CenterHashMap) (out : List Bytes) → q < length m → Two q m out
server_walk-Two q m out h = elim (dec_lt (q + 1) (length m)) [
  | no stop ↦ inl (omega arith, server_walk_off 1 q m out h (omega arith))
  | yes on ↦
      let (b, eb) = get_elem?_lt m (q + 1) on in
      let sb = server_walk_on 1 q m out b h eb in
      let same : q + 1 + 1 ≡ q + 2 = omega arith in
      elim (dec_lt (q + 2) (length m)) [
        | no stop ↦
            inl (omega arith, sb ∙ server_walk_off 0 (q + 1) m (out ++ b.1 ∷ []) on (omega arith))
        | yes last ↦
            let (c, ec) = get_elem?_lt m (q + 2) last in
            inr (
              last,
              b,
              c,
              eb,
              ec,
              sb
                  ∙ server_walk_on 0 (q + 1) m (out ++ b.1 ∷ []) c on (ap (get_elem? m) same ∙ ec)
                  ∙ server_walk_done (q + 1 + 1) m ((out ++ b.1 ∷ []) ++ c.1 ∷ []),
            )
      ]
]

server_walk_three :
    (p : ℕ) (m : CenterHashMap)
    → p ≤ length m
    → (TooShort m p × (server_walk 3 p m [] ≡ fault))
      ⊎ (¬ TooShort m p × Picks m p (server_walk 3 p m []))
server_walk_three p m h = elim (dec_lt (advance p m) (length m)) [
  | no stop ↦ inl (ground arith, server_walk_fault 2 p m [] (omega arith))
  | yes on ↦
      let (a, ea) = get_elem?_lt m (advance p m) on in
      let sa = server_walk_step 2 p m [] a ea in
      elim (server_walk-Two (advance p m) m (a.1 ∷ []) on) [
        | inl (l, f) ↦ inl (ground arith, sa ∙ f)
        | inr (l, b, c, eb, ec, f) ↦ inr (ground arith, (a, b, c, ea, eb, ec, sa ∙ f))
      ]
]

-- A server that registers is told the three centers behind the one that its hash finds, from the
-- first center on when the hash lies above every center; when the ring is too short there,
-- dereferencing end() is undefined behaviour.
pub should_reporter-Picks :
    (addr : Bytes) (m : CenterHashMap)
    → let p = lower_bound (hash_id addr) m in
      (TooShort m p × (should_reporter addr m ≡ fault))
      ⊎ (¬ TooShort m p × Picks m p (should_reporter addr m))
unfolding should_reporter
should_reporter-Picks addr m =
    server_walk_three (lower_bound (hash_id addr) m) m (lower_bound-le (hash_id addr) m)
