-- ===== src/Util/Locks/Guarded/Answers.antt =====
-- What the constructors of the guards in src/util/pthread_mutex.h and src/util/pthread_rwlock.h know
-- of the lock when they return.
use libevrpc.Base.{
  ℕ, ◌+◌, ◌≡◌, refl, ◌≢◌, inl, inr, Bool, true, false, none, some, List, [], ◌∷◌, ◌++◌,
  if◌then◌else◌, arith, Option-cases,
}
use libevrpc.Util.Locks.{Kind, mutex, read, write, Call, lock, trylock, ebusy, try_loop, lock_guard}
use libevrpc.Util.Locks.Guarded.{PthreadLock, guard}

-- What a thread is let in beside.
abbrev pub LetIn : {P : Type 0} → PthreadLock P → P → P → ℕ → Kind → Type 0
LetIn pt p p' t k =
    pt.Holds p' t k
    × ((u : ℕ) (j : Kind) → pt.Holds p u j → pt.Holds p' u j × (j ≡ read) × (k ≡ read))

try_loop-busy :
    (n r : ℕ) (rets : List ℕ)
    → try_loop n rets ≡ none
    → try_loop n (rets ++ r ∷ []) ≡ none
    → r ≡ ebusy
unfolding try_loop
try_loop-busy n r [] h k = ground arith
try_loop-busy n r (x ∷ rets) h k = ground (arith, try_loop-busy (n + 1) r rets)

try_loop-taken :
    (n r : ℕ) (rets : List ℕ) (done : ℕ × ℕ)
    → try_loop n rets ≡ none
    → try_loop n (rets ++ r ∷ []) ≡ some done
    → r ≢ ebusy
unfolding try_loop
try_loop-taken n r [] done h k = ground arith
try_loop-taken n r (x ∷ rets) done h k = ground (arith, try_loop-taken (n + 1) r rets done)

guard-lock_guard :
    (k : Kind) (try : Bool) (rets : List ℕ) → guard k try rets ≡ lock_guard k try rets
guard-lock_guard mutex try rets = refl
guard-lock_guard read try rets = refl
guard-lock_guard write try rets = refl

lock_guard-busy :
    (k : Kind) (r : ℕ) (rets : List ℕ)
    → lock_guard k true rets ≡ none
    → lock_guard k true (rets ++ r ∷ []) ≡ none
    → r ≡ ebusy
unfolding lock_guard
lock_guard-busy k r rets h g = ground (arith, try_loop-busy 0 r rets)

lock_guard-taken :
    (k : Kind) (r : ℕ) (rets : List ℕ) (done : List Call × Bool)
    → lock_guard k true rets ≡ none
    → lock_guard k true (rets ++ r ∷ []) ≡ some done
    → r ≢ ebusy
unfolding lock_guard
lock_guard-taken k r rets done h g = elim (Option-cases (try_loop 0 (rets ++ r ∷ []))) [
  | inl e ↦ absurd (ground arith)
  | inr (d, e) ↦ try_loop-taken 0 r rets d (ground arith) e
]

-- Without `trylock` the first result is the last.
lock_guard_once :
    (k : Kind) (r : ℕ) (rets : List ℕ)
    → lock_guard k false rets ≡ none
    → lock_guard k false (rets ++ r ∷ []) ≡ none
    → ⊥
unfolding lock_guard
lock_guard_once k r [] h g = ground arith
lock_guard_once k r (x ∷ rets) h g = ground arith

pub unasked : (k : Kind) (try : Bool) → guard k try [] ≡ none
unfolding lock_guard try_loop
unasked mutex false = refl
unasked mutex true = refl
unasked read false = refl
unasked read true = refl
unasked write false = refl
unasked write true = refl

-- A guard that goes on waiting has not changed the lock.
pub stays :
    {P : Type 0} (pt : PthreadLock P) (k : Kind) (try : Bool) (rets : List ℕ) (p p' : P) (t r : ℕ)
    → pt.Returns p t (if try then trylock k else lock k) r p'
    → guard k try rets ≡ none
    → guard k try (rets ++ r ∷ []) ≡ none
    → p' ≡ p
stays pt k false rets p p' t r called h g = absurd (
    lock_guard_once k r rets (rw (← guard-lock_guard k false rets) h)
      (rw (← guard-lock_guard k false (rets ++ r ∷ [])) g))
stays pt k true rets p p' t r called h g =
    let busy =
      lock_guard-busy k r rets (rw (← guard-lock_guard k true rets) h)
        (rw (← guard-lock_guard k true (rets ++ r ∷ [])) g) in
    elim (pt.trylock_returns p p' t r k called) [
      | inl (zero_ret, _, _) ↦ absurd (omega arith)
      | inr (_, same) ↦ same
    ]

-- A guard whose constructor returns has been let in.
pub let_in :
    {P : Type 0} (pt : PthreadLock P) (k : Kind) (try : Bool) (rets : List ℕ) (p p' : P) (t r : ℕ)
    (done : List Call × Bool)
    → pt.Returns p t (if try then trylock k else lock k) r p'
    → guard k try rets ≡ none
    → guard k try (rets ++ r ∷ []) ≡ some done
    → LetIn pt p p' t k
let_in pt k false rets p p' t r done called h g =
    let (_, holds, beside) = pt.lock_returns p p' t r k called in (holds, beside)
let_in pt k true rets p p' t r done called h g =
    let taken =
      lock_guard-taken k r rets done (rw (← guard-lock_guard k true rets) h)
        (rw (← guard-lock_guard k true (rets ++ r ∷ [])) g) in
    elim (pt.trylock_returns p p' t r k called) [
      | inl (_, holds, beside) ↦ (holds, beside)
      | inr (busy, _) ↦ absurd (taken busy)
    ]
