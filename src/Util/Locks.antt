-- ===== src/Util/Locks.antt =====
-- The locks of src/util/pthread_mutex.h and src/util/pthread_rwlock.h. The results of the pthread
-- calls are arguments; what the classes do is the list of the calls they make.
pub mod Guarded
use mathlib.Core.Option
use libevrpc.Base.{
  ℕ, zero, suc, ◌+◌, ◌≡◌, ◌≢◌, ap, ◌∙◌, Bool, true, false, Option, none, some, List, [], ◌∷◌, ◌++◌,
  ◌==◌, if◌then◌else◌, replicate, arith,
}

pub data Kind : Type 0 where
  mutex read write : Kind

-- The pthread calls: init, lock and trylock of a kind, unlock and destroy.
pub data Call : Type 0 where
  init unlock destroy : Call
  lock trylock : Kind → Call

-- The constructor of Mutex and RWLock: create_success_.
unfoldable new_lock : ℕ → Bool
new_lock ret = ret == 0

abbrev ebusy : ℕ
ebusy = 16

-- `while ((ret = trylock()) == EBUSY)`: the number of calls and the last result, when there is one
-- that is not EBUSY.
unfoldable pub try_loop : ℕ → List ℕ → Option (ℕ × ℕ)
try_loop n [] = none
try_loop n (ret ∷ rets) =
    let later = try_loop (n + 1) rets in if ret == ebusy then later else some (n + 1, ret)

-- The constructor of a guard: its calls and lock_success_; none while it waits.
unfoldable pub lock_guard : Kind → Bool → List ℕ → Option (List Call × Bool)
lock_guard kind false [] = none
lock_guard kind false (ret ∷ rets) = some (lock kind ∷ [], ret == 0)
lock_guard kind true rets =
    Option.map (λ (n, ret). (replicate n (trylock kind), ret == 0)) (try_loop 0 rets)

-- ReadLockGuard and WriteLockGuard.
abbrev pub read_lock_guard : Bool → List ℕ → Option (List Call × Bool)
read_lock_guard try rets = lock_guard read try rets

abbrev pub write_lock_guard : Bool → List ℕ → Option (List Call × Bool)
write_lock_guard try rets = lock_guard write try rets

-- A block with a guard: the calls of the constructor, those of the block, and the unlock() of the
-- destructor, which does not look at lock_success_.
unfoldable with_guard : Kind → Bool → List ℕ → List Call → Option (List Call)
with_guard kind try rets block =
    Option.map (λ (calls, success). calls ++ block ++ unlock ∷ []) (lock_guard kind try rets)

try_loop-replicate :
    (n m ret : ℕ) (rest : List ℕ)
    → ret ≢ ebusy
    → try_loop n (replicate m ebusy ++ ret ∷ rest) ≡ some (n + m + 1, ret)
unfolding try_loop
try_loop-replicate n zero ret rest h =
    let other : (ret == ebusy) ≡ false = ground (arith, h) in
    rw other (ap (λ k. some (k, ret)) (omega arith))
try_loop-replicate n (suc m) ret rest h =
    try_loop-replicate (n + 1) m ret rest h ∙ ap (λ k. some (k, ret)) (omega arith)

-- A guard that tries m times in vain and then gets the result `ret` makes m + 1 calls before the
-- block is run, whether the lock was taken or not, and the block is unlocked once.
with_guard_tries :
    (kind : Kind) (m ret : ℕ) (rest : List ℕ) (block : List Call)
    → ret ≢ ebusy
    → with_guard kind true (replicate m ebusy ++ ret ∷ rest) block
      ≡ some (replicate (suc m) (trylock kind) ++ block ++ unlock ∷ [])
unfolding with_guard lock_guard
with_guard_tries kind m ret rest block h =
    let calls : 0 + m + 1 ≡ suc m = omega arith in
    rw (try_loop-replicate 0 m ret rest h)
      (ap (λ k. some (replicate k (trylock kind) ++ block ++ unlock ∷ [])) calls)
