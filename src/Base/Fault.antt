-- ===== src/Base/Fault.antt =====
-- Results of code that may run into undefined behaviour, such as a read through NULL or end().
use mathlib.Core.Path.{◌≡◌, refl}
use mathlib.Core.Logic.{◌⊎◌, inl, inr}
use native.Mathlib.Omega.{arith}
use mathlib.Core.Option.{Option, none, some}

pub data Run {ℓ} (A : Type ℓ) : Type ℓ where
  ok : A → Run A
  fault : Run A

infixl 5 ◌>>=◌
abbrev pub ◌>>=◌ {ℓ κ} : {A : Type ℓ} {B : Type κ} → Run A → (A → Run B) → Run B
ok a >>= f = f a
fault >>= f = fault

-- A pointer or iterator that is read.
abbrev pub deref {ℓ} : {A : Type ℓ} → Option A → Run A
deref none = fault
deref (some a) = ok a

-- The value of a run that meets no fault satisfies a predicate.
abbrev pub Ok {ℓ κ} : {A : Type ℓ} → (A → Type κ) → Run A → Type κ
Ok P (ok a) = P a
Ok P fault = Unit

-- A run that ends well has ended well in its first part.
pub bind_ok :
    {A B : Type 0} (m : Run A) (f : A → Run B) (b : B)
    → m >>= f ≡ ok b
    → (a : A) × (m ≡ ok a) × (f a ≡ ok b)
bind_ok (ok a) f b e = (a, refl, e)
bind_ok fault f b e = absurd (ground arith)

pub Run-cases : {A : Type 0} (m : Run A) → ((a : A) × (m ≡ ok a)) ⊎ (m ≡ fault)
Run-cases (ok a) = inl (a, refl)
Run-cases fault = inr refl
