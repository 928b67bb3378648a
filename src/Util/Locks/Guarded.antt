-- ===== src/Util/Locks/Guarded.antt =====
-- Threads whose methods run under the guards of src/util/pthread_mutex.h and
-- src/util/pthread_rwlock.h, interleaved in any order. The pthread lock is an argument. What a
-- method does under its guard is a list of small steps on its own values and the shared state.
mod Answers
pub mod Serial
pub mod Invariant
mod Entry
mod Work
pub mod Refines
pub mod Owners
mod Tests
use libevrpc.Base.{
  ℕ, ◌≡◌, ◌≢◌, ◌⊎◌, Bool, Option, none, some, List, [], ◌∷◌, ◌++◌, map, get_elem?, set,
  if◌then◌else◌,
}
use libevrpc.Util.Locks.{
  Kind, mutex, read, write, Call, unlock, lock, trylock, ebusy, lock_guard, read_lock_guard,
  write_lock_guard,
}

-- A pthread lock for threads with numbers. `Returns p t call r p'`: a call of the thread t gives r
-- and takes the lock from p to p'. A thread is let in only beside readers, and as a reader, or when
-- nobody is in; the others stay in then, and when another thread leaves. A call of trylock() that
-- does not let in changes nothing. The calls know no errors but EBUSY.
pub record PthreadLock (P : Type 0) : Type 1 where
  pub Holds : P → ℕ → Kind → Type 0
  pub Returns : P → ℕ → Call → ℕ → P → Type 0
  pub lock_returns :
      (p p' : P) (t r : ℕ) (k : Kind)
      → Returns p t (lock k) r p'
      → (r ≡ 0)
        × Holds p' t k
        × ((u : ℕ) (j : Kind) → Holds p u j → Holds p' u j × (j ≡ read) × (k ≡ read))
  pub trylock_returns :
      (p p' : P) (t r : ℕ) (k : Kind)
      → Returns p t (trylock k) r p'
      → ((r ≡ 0)
          × Holds p' t k
          × ((u : ℕ) (j : Kind) → Holds p u j → Holds p' u j × (j ≡ read) × (k ≡ read)))
        ⊎ ((r ≡ ebusy) × (p' ≡ p))
  pub unlock_returns :
      (p p' : P) (t u r : ℕ) (j : Kind)
      → Returns p t unlock r p'
      → u ≢ t
      → Holds p u j
      → Holds p' u j

abbrev pub Work : Type 0 → Type 0 → Type 0
Work S L = L → S → L × S

-- The guard of a method, with its argument `trylock`, and what is done under it.
pub record Method (S L : Type 0) : Type 0 where
  pub kind : Kind
  pub try : Bool
  pub block : List (Work S L)

-- Between two methods; in the constructor of a guard, with the results of the pthread calls so far;
-- under the guard, with the work that is left and the values of the method.
pub data Phase (S L : Type 0) : Type 0 where
  idle : Phase S L
  locking : Method S L → List ℕ → Phase S L
  inside : Method S L → List (Work S L) → L → Phase S L

pub record Thread (S L : Type 0) : Type 0 where
  pub todo : List (Method S L)
  pub phase : Phase S L

-- A method that has ended: its thread, the method and its values at the end.
abbrev pub Entry : Type 0 → Type 0 → Type 0
Entry S L = ℕ × Method S L × L

pub record System (P S L : Type 0) : Type 0 where
  pub rwlock : P
  pub shared : S
  pub threads : List (Thread S L)
  pub ended : List (Entry S L)

-- The constructor of the guard of a kind, MutexLockGuard, ReadLockGuard or WriteLockGuard, for given
-- results.
abbrev pub guard : Kind → Bool → List ℕ → Option (List Call × Bool)
guard mutex try rets = lock_guard mutex try rets
guard read try rets = read_lock_guard try rets
guard write try rets = write_lock_guard try rets

-- The call that it repeats.
abbrev pub attempt : {S L : Type 0} → Method S L → Call
attempt m = if m.try then trylock m.kind else lock m.kind

module _ {P S L : Type 0} where
  abbrev pub put_thread : ℕ → Thread S L → System P S L → System P S L
  put_thread i t c = record c { threads = set c.threads i t }

  -- A thread begins its next method; a pthread call of a guard returns, and the guard goes on
  -- waiting or its block is entered, whatever `lock_success_` is; a small step of a block is done;
  -- the destructor of the guard unlocks.
  pub data Step (pt : PthreadLock P) (l₀ : L) (c : System P S L) : System P S L → Type 0 where
    begins :
        (i : ℕ) (m : Method S L) (ms : List (Method S L))
        → get_elem? c.threads i ≡ some (record { todo = m ∷ ms; phase = idle })
        → Step pt l₀ c (put_thread i (record { todo = ms; phase = locking m [] }) c)
    waits :
        (i : ℕ) (m : Method S L) (ms : List (Method S L)) (rets : List ℕ) (r : ℕ) (p : P)
        → get_elem? c.threads i ≡ some (record { todo = ms; phase = locking m rets })
        → pt.Returns c.rwlock i (attempt m) r p
        → guard m.kind m.try (rets ++ r ∷ []) ≡ none
        → Step pt l₀ c (
            put_thread i
              (record { todo = ms; phase = locking m (rets ++ r ∷ []) })
              (record c { rwlock = p }))
    enters :
        (i : ℕ) (m : Method S L) (ms : List (Method S L)) (rets : List ℕ) (r : ℕ) (p : P)
        (done : List Call × Bool)
        → get_elem? c.threads i ≡ some (record { todo = ms; phase = locking m rets })
        → pt.Returns c.rwlock i (attempt m) r p
        → guard m.kind m.try (rets ++ r ∷ []) ≡ some done
        → Step pt l₀ c (
            put_thread i
              (record { todo = ms; phase = inside m m.block l₀ })
              (record c { rwlock = p }))
    works :
        (i : ℕ) (m : Method S L) (ms : List (Method S L)) (w : Work S L) (ws : List (Work S L))
        (l : L)
        → get_elem? c.threads i ≡ some (record { todo = ms; phase = inside m (w ∷ ws) l })
        → Step pt l₀ c (
            put_thread i
              (record { todo = ms; phase = inside m ws (w l c.shared).0 })
              (record c { shared = (w l c.shared).1 }))
    leaves :
        (i : ℕ) (m : Method S L) (ms : List (Method S L)) (l : L) (r : ℕ) (p : P)
        → get_elem? c.threads i ≡ some (record { todo = ms; phase = inside m [] l })
        → pt.Returns c.rwlock i unlock r p
        → Step pt l₀ c (
            put_thread i
              (record { todo = ms; phase = idle })
              (record c { rwlock = p; ended = c.ended ++ (i, m, l) ∷ [] }))

  pub data Reach (pt : PthreadLock P) (l₀ : L) (s : System P S L) : System P S L → Type 0 where
    here : Reach pt l₀ s s
    next : {c d : System P S L} → Reach pt l₀ s c → Step pt l₀ c d → Reach pt l₀ s d

-- Threads that have not begun their methods.
abbrev pub unbegun : {S L : Type 0} → List (List (Method S L)) → List (Thread S L)
unbegun programs = map (λ ms. record { todo = ms; phase = idle }) programs

abbrev pub fresh : {P S L : Type 0} → P → S → List (List (Method S L)) → System P S L
fresh p s programs = record { rwlock = p; shared = s; threads = unbegun programs; ended = [] }
