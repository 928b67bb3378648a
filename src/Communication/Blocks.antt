-- ===== src/Communication/Blocks.antt =====
-- The blocks of a text put together again.
use mathlib.Core.Path.{ap₂, subst}
use libevrpc.Base.{
  ℕ, zero, suc, ◌+◌, ◌*◌, ◌/◌, ◌%◌, ◌≤◌, ◌≡◌, refl, sym, ap, ◌∙◌, [], ◌∷◌, ◌++◌, length, drop,
  arith, length-append, length-drop, take_all, take-append-drop, drop-drop, ◌==◌, All-append,
  All-take, All-drop, Bool-cases, inl, inr,
}
use libevrpc.Base.Bytes.{
  Bytes, until_nul, NoNul, until_nul-NoNul, length-until_nul-le, NoNul-length,
}
use libevrpc.Communication.RoundTrip.{block, last_block, text_from}

drop-block : (s : Bytes) (i : ℕ) → drop (i * 511) s ≡ block s i ++ drop ((i + 1) * 511) s
drop-block s i =
    let e : (i + 1) * 511 ≡ i * 511 + 511 = omega arith in
    rw (e, ← drop-drop (i * 511) 511 s) (sym (take-append-drop 511 (drop (i * 511) s)))

last_block-drop : (s : Bytes) → last_block s ≡ drop (length s / 511 * 511) s
last_block-drop s =
    take_all (length s % 511) (drop (length s / 511 * 511) s)
      (omega (arith, length-drop {0} (length s / 511 * 511) s))

NoNul-drop_next : (s : Bytes) (i : ℕ) → NoNul (drop (i * 511) s) → NoNul (drop ((i + 1) * 511) s)
NoNul-drop_next s i h =
    let e : (i + 1) * 511 ≡ i * 511 + 511 = omega arith in
    rw (e, ← drop-drop (i * 511) 511 s) (All-drop _ 511 (drop (i * 511) s) h)

empty_of_length : (t : Bytes) → length t ≤ 0 → t ≡ []
empty_of_length [] h = refl
empty_of_length (x ∷ t) h = absurd (omega arith)

length_rest :
    (s : Bytes) (i : ℕ) → i + 0 ≡ length s / 511 → length (drop (i * 511) s) ≡ length s % 511
length_rest s i e = omega (arith, length-drop {0} (i * 511) s)

last_block-at : (s : Bytes) (i : ℕ) → i + 0 ≡ length s / 511 → last_block s ≡ drop (i * 511) s
last_block-at s i e =
    last_block-drop s ∙ ap (λ k. drop (k * 511) s) (let e' : length s / 511 ≡ i = omega arith in e')

-- What the frames carry from the i-th block on, when the text has no NUL there.
pub text_from-drop :
    (n i : ℕ) (s : Bytes)
    → i + n ≡ length s / 511
    → NoNul (drop (i * 511) s)
    → text_from n i s ≡ drop (i * 511) s
unfolding text_from
text_from-drop zero i s e h = elim (Bool-cases (length s % 511 == 0)) [
  | inl none_left ↦
      rw none_left (sym (empty_of_length (drop (i * 511) s) (ground (arith, length_rest s i e))))
  | inr some_left ↦ rw (some_left, last_block-at s i e) (until_nul-NoNul (drop (i * 511) s) h)
]
text_from-drop (suc n) i s e h =
    ap₂ ◌++◌ (until_nul-NoNul (block s i) (All-take _ 511 (drop (i * 511) s) h))
      (text_from-drop n (i + 1) s (omega arith) (NoNul-drop_next s i h))
    ∙ sym (drop-block s i)

pub length-text_from-le :
    (n i : ℕ) (s : Bytes)
    → i + n ≡ length s / 511
    → length (text_from n i s) ≤ length (drop (i * 511) s)
unfolding text_from
length-text_from-le zero i s e = elim (Bool-cases (length s % 511 == 0)) [
  | inl none_left ↦ rw none_left (omega arith)
  | inr some_left ↦ rw (some_left, last_block-at s i e) (length-until_nul-le (drop (i * 511) s))
]
length-text_from-le (suc n) i s e = omega (
  arith,
  ap length (drop-block s i),
  length-append {0} (block s i) (drop ((i + 1) * 511) s),
  length-append {0} (until_nul (block s i)) (text_from n (i + 1) s),
  length-until_nul-le (block s i),
  length-text_from-le n (i + 1) s (omega arith),
)

NoNul-last :
    (s : Bytes) (i : ℕ)
    → i + 0 ≡ length s / 511
    → length (text_from zero i s) ≡ length (drop (i * 511) s)
    → NoNul (drop (i * 511) s)
unfolding text_from
NoNul-last s i e h = elim (Bool-cases (length s % 511 == 0)) [
  | inl none_left ↦ rw (empty_of_length (drop (i * 511) s) (ground (arith, length_rest s i e))) tt
  | inr some_left ↦ NoNul-length (drop (i * 511) s) (rw (some_left, last_block-at s i e) at h)
]

-- And only then is nothing lost.
pub NoNul-text_from :
    (n i : ℕ) (s : Bytes)
    → i + n ≡ length s / 511
    → length (text_from n i s) ≡ length (drop (i * 511) s)
    → NoNul (drop (i * 511) s)
unfolding text_from
NoNul-text_from zero i s e h = NoNul-last s i e h
NoNul-text_from (suc n) i s e h =
    let b = ap length (drop-block s i) in
    let p = length-append {0} (block s i) (drop ((i + 1) * 511) s) in
    let q = length-append {0} (until_nul (block s i)) (text_from n (i + 1) s) in
    let u = length-until_nul-le (block s i) in
    let v = length-text_from-le n (i + 1) s (omega arith) in
    subst NoNul (sym (drop-block s i)) (
      All-append _ (block s i) _ (NoNul-length (block s i) (omega arith))
        (NoNul-text_from n (i + 1) s (omega arith) (omega arith)))
