-- ===== src/Util/Locks/Guarded/Owners.antt =====
-- A lock that does what pthread_rwlock_t and pthread_mutex_t promise to the guards of
-- src/util/pthread_mutex.h and src/util/pthread_rwlock.h: a table of who is in.
use libevrpc.Base.{
  ℕ, ◌≡◌, ap, ◌∙◌, ◌≢◌, ◌⊎◌, inl, inr, Option, none, some, ◌==◌, if◌then◌else◌, arith,
}
use libevrpc.Util.Locks.{Kind, read, Call, init, unlock, destroy, lock, trylock, ebusy}
use libevrpc.Util.Locks.Guarded.{PthreadLock}

abbrev pub Owners : Type 0
Owners = ℕ → Option Kind

abbrev pub nobody : Owners
nobody t = none

abbrev pub put_owner : ℕ → Option Kind → Owners → Owners
put_owner t o p u = if u == t then o else p u

-- The lock lets in a writer only alone, and a reader only beside readers.
abbrev pub Grants : Owners → ℕ → Kind → Owners → Type 0
Grants p t k p' =
    (p' ≡ put_owner t (some k) p) × ((u : ℕ) (j : Kind) → p u ≡ some j → (j ≡ read) × (k ≡ read))

abbrev pub Answers : Owners → ℕ → Call → ℕ → Owners → Type 0
Answers p t init r p' = ⊥
Answers p t unlock r p' = p' ≡ put_owner t none p
Answers p t destroy r p' = ⊥
Answers p t (lock k) r p' = (r ≡ 0) × Grants p t k p'
Answers p t (trylock k) r p' = ((r ≡ 0) × Grants p t k p') ⊎ ((r ≡ ebusy) × (p' ≡ p))

put_owner-same : (p : Owners) (t : ℕ) (o : Option Kind) → put_owner t o p t ≡ o
put_owner-same p t o = ground arith

pub put_owner-other : (p : Owners) (t u : ℕ) (o : Option Kind) → u ≢ t → put_owner t o p u ≡ p u
put_owner-other p t u o ne = ground arith

pub granted :
    (p p' : Owners) (t : ℕ) (k : Kind)
    → Grants p t k p'
    → (p' t ≡ some k)
      × ((u : ℕ) (j : Kind) → p u ≡ some j → (p' u ≡ some j) × (j ≡ read) × (k ≡ read))
granted p p' t k (now, beside) = (
  ap (λ q. q t) now ∙ put_owner-same p t (some k),
  λ u j h.
      let (theirs, ours) = beside u j h in
      let after : put_owner t (some k) p u ≡ some j = ground arith in
      (ap (λ q. q u) now ∙ after, theirs, ours),
)

abbrev pub owners : PthreadLock Owners
owners = record {
  Holds = λ p u j. p u ≡ some j;
  Returns = Answers;
  lock_returns = λ p p' t r k (zero_ret, g).
      let (holds, beside) = granted p p' t k g in (zero_ret, holds, beside);
  trylock_returns = λ p p' t r k answer. elim answer [
    | inl (zero_ret, g) ↦ let (holds, beside) = granted p p' t k g in inl (zero_ret, holds, beside)
    | inr busy ↦ inr busy
  ];
  unlock_returns = λ p p' t u r j now ne h. ap (λ q. q u) now ∙ put_owner-other p t u none ne ∙ h;
}
