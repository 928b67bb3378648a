-- ===== src/Base/Bytes.antt =====
-- Texts of the program as lists of bytes: std::string equality and order, and C strings.
use Prim.Native.Nat.{ℕ, ◌<◌, ◌≤◌}
use mathlib.Core.Path.{◌≡◌, refl}
use mathlib.Core.Logic.{◌↔◌, ◌⊎◌, inl, inr}
use mathlib.Core.Bool.{Bool, true, false, ◌&&◌}
use mathlib.Core.List.{List, [], ◌∷◌, ◌++◌}
use mathlib.Core.Option.{Option, none, some}
use native.Mathlib.Omega.{arith}
use libevrpc.Base.Tests.{ltb, ◌==◌, if◌then◌else◌, ==_iff, Eq}
use libevrpc.Base.Lists.{All, length}

abbrev pub Bytes : Type 0
Bytes = List ℕ

-- std::string ==
unfoldable pub bytes_eq : Bytes → Bytes → Bool
bytes_eq [] [] = true
bytes_eq [] (b ∷ bs) = false
bytes_eq (a ∷ as') [] = false
bytes_eq (a ∷ as') (b ∷ bs) = (a == b) && bytes_eq as' bs

bytes_eq→eq : (s t : Bytes) → bytes_eq s t ≡ true → s ≡ t
unfolding bytes_eq
bytes_eq→eq [] [] h = refl
bytes_eq→eq [] (b ∷ bs) h = cc
bytes_eq→eq (a ∷ s) [] h = cc
bytes_eq→eq (a ∷ s) (b ∷ bs) h = ground (arith, bytes_eq→eq s bs)

pub bytes_eq_refl : (s : Bytes) → bytes_eq s s ≡ true
unfolding bytes_eq
bytes_eq_refl [] = refl
bytes_eq_refl (a ∷ s) = ground (arith, bytes_eq_refl s)

pub bytes_eq_iff : (s t : Bytes) → (bytes_eq s t ≡ true) ↔ (s ≡ t)
bytes_eq_iff s t = (bytes_eq→eq s t, λ e. rw e (bytes_eq_refl t))

instance abbrev pub bytes_key : Eq Bytes
bytes_key = record { beq = bytes_eq; beq_iff = bytes_eq_iff }

instance abbrev pub nat_key : Eq ℕ
nat_key = record { beq = λ a b. a == b; beq_iff = ==_iff }

-- s.compare(t) < 0
unfoldable pub bytes_lt : Bytes → Bytes → Bool
bytes_lt [] [] = false
bytes_lt [] (b ∷ bs) = true
bytes_lt (a ∷ s) [] = false
bytes_lt (a ∷ s) (b ∷ bs) =
    let rest = bytes_lt s bs in if ltb a b then true else if ltb b a then false else rest

pub bytes_lt_irrefl : (s : Bytes) → bytes_lt s s ≡ false
unfolding bytes_lt
bytes_lt_irrefl [] = refl
bytes_lt_irrefl (a ∷ s) = ground (arith, bytes_lt_irrefl s)

pub bytes_lt_trans :
    (s t u : Bytes) → bytes_lt s t ≡ true → bytes_lt t u ≡ true → bytes_lt s u ≡ true
unfolding bytes_lt
bytes_lt_trans [] [] u h k = cc
bytes_lt_trans [] (b ∷ t) [] h k = cc
bytes_lt_trans [] (b ∷ t) (c ∷ u) h k = refl
bytes_lt_trans (a ∷ s) [] u h k = cc
bytes_lt_trans (a ∷ s) (b ∷ t) [] h k = cc
bytes_lt_trans (a ∷ s) (b ∷ t) (c ∷ u) h k = ground (arith, bytes_lt_trans s t u)

pub bytes_lt_total : (s t : Bytes) → (bytes_lt s t ≡ true) ⊎ (bytes_lt t s ≡ true) ⊎ (s ≡ t)
unfolding bytes_lt
bytes_lt_total [] [] = inr (inr refl)
bytes_lt_total [] (b ∷ t) = inl refl
bytes_lt_total (a ∷ s) [] = inr (inl refl)
bytes_lt_total (a ∷ s) (b ∷ t) = ground (arith, bytes_lt_total s t)

-- The C string at the start of a buffer; `none` when strlen would run off its end.
unfoldable pub cstr : Bytes → Option Bytes
cstr [] = none
cstr (b ∷ r) =
    let rest = cstr r in
    if b == 0 then some [] else elim rest [ none ↦ none | some t ↦ some (b ∷ t) ]

-- What strlen sees of a text that is followed by a NUL.
unfoldable pub until_nul : Bytes → Bytes
until_nul [] = []
until_nul (b ∷ r) = let rest = until_nul r in if b == 0 then [] else b ∷ rest

abbrev pub NoNul : Bytes → Type 0
NoNul = All (λ b. 0 < b)

pub cstr-terminated : (s r : Bytes) → cstr (s ++ 0 ∷ r) ≡ some (until_nul s)
unfolding cstr until_nul
cstr-terminated [] r = refl
cstr-terminated (b ∷ s) r = ground (arith, cstr-terminated s r)

pub until_nul-NoNul : (s : Bytes) → NoNul s → until_nul s ≡ s
unfolding until_nul
until_nul-NoNul [] h = refl
until_nul-NoNul (b ∷ s) h = ground (arith, until_nul-NoNul s h.1)

pub length-until_nul-le : (s : Bytes) → length (until_nul s) ≤ length s
unfolding until_nul
length-until_nul-le [] = omega arith
length-until_nul-le (b ∷ s) = ground (arith, length-until_nul-le s)

-- strlen sees the whole text only where there is no NUL in it.
pub NoNul-length : (s : Bytes) → length (until_nul s) ≡ length s → NoNul s
unfolding until_nul
NoNul-length [] h = tt
NoNul-length (b ∷ s) h = (ground arith, NoNul-length s (ground arith))

-- A buffer in which strlen finds no end is one without a NUL.
pub cstr-none : (s : Bytes) → NoNul s → cstr s ≡ none
unfolding cstr
cstr-none [] h = refl
cstr-none (b ∷ s) h = ground (arith, cstr-none s h.1)
