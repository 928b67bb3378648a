-- ===== src/Util/Locks/Guarded/Refines.antt =====
-- Guarded methods, interleaved, against the same methods one after the other: the guards of
-- src/util/pthread_mutex.h and src/util/pthread_rwlock.h.
use mathlib.Core.Path.{subst}
use mathlib.Core.Option.{some-injective}
use libevrpc.Base.{
  ℕ, ◌≡◌, refl, sym, ◌⊎◌, inl, some, List, [], ◌∷◌, ◌++◌, get_elem?, All, zero, suc, arith,
}
use libevrpc.Util.Locks.Guarded.{
  PthreadLock, Method, idle, Thread, Entry, System, Step, begins, waits, enters, works, leaves,
  Reach, here, next, unbegun, fresh,
}
use libevrpc.Util.Locks.Guarded.Serial.{Serial, methods_of, pending}
use libevrpc.Util.Locks.Guarded.Invariant.{Honest, Inside, Fits, Each, Apart, Writes, Inv}
use libevrpc.Util.Locks.Guarded.Entry.{begins-Inv, waits-Inv, enters-Inv}
use libevrpc.Util.Locks.Guarded.Work.{works-Inv, leaves-Inv}

module _ {S L : Type 0} where
  unbegun-lem :
      (programs : List (List (Method S L))) (i : ℕ) (t : Thread S L)
      → get_elem? (unbegun programs) i ≡ some t
      → (ms : List (Method S L)) × (get_elem? programs i ≡ some ms)
        × (record { todo = ms; phase = idle } ≡ t)
  unbegun-lem [] i t e = absurd (ground arith)
  unbegun-lem (ms ∷ rest) zero t e = (ms, refl, some-injective _ _ e)
  unbegun-lem (ms ∷ rest) (suc i) t e = unbegun-lem rest i t e

  All-get :
      (Q : List (Method S L) → Type 0) (programs : List (List (Method S L))) (i : ℕ)
      (ms : List (Method S L))
      → All Q programs
      → get_elem? programs i ≡ some ms
      → Q ms
  All-get Q [] i ms a e = absurd (ground arith)
  All-get Q (ns ∷ rest) zero ms a e = subst Q (some-injective _ _ e) a.0
  All-get Q (ns ∷ rest) (suc i) ms a e = All-get Q rest i ms a.1 e

module _ {P S L : Type 0} where
  Step-Inv :
      (Q : Method S L → Type 0) (pt : PthreadLock P) (l₀ : L) (start : S)
      (programs : List (List (Method S L))) (c d : System P S L) (s₀ : S)
      → ((m : Method S L) → Q m → Honest m)
      → Inv Q pt l₀ start programs c s₀
      → Step pt l₀ c d
      → (s₁ : S) × Inv Q pt l₀ start programs d s₁
  Step-Inv Q pt l₀ start programs c _ s₀ honest v (begins i m ms e) =
      (s₀, begins-Inv Q pt l₀ start programs c s₀ i m ms v e)
  Step-Inv Q pt l₀ start programs c _ s₀ honest v (waits i m ms rets r p e called g) =
      (s₀, waits-Inv Q pt l₀ start programs c s₀ i m ms rets r p v e called g)
  Step-Inv Q pt l₀ start programs c _ s₀ honest v (enters i m ms rets r p done e called g) =
      (s₀, enters-Inv Q pt l₀ start programs honest c s₀ i m ms rets r p done v e called g)
  Step-Inv Q pt l₀ start programs c _ s₀ honest v (works i m ms w ws l e) =
      (s₀, works-Inv Q pt l₀ start programs c s₀ i m ms w ws l v e)
  Step-Inv Q pt l₀ start programs c _ s₀ honest v (leaves i m ms l r p e called) =
      (c.shared, leaves-Inv Q pt l₀ start programs c s₀ i m ms l r p v e called)

  fresh-Inv :
      (Q : Method S L → Type 0) (pt : PthreadLock P) (l₀ : L) (p : P) (s : S)
      (programs : List (List (Method S L)))
      → All (All Q) programs
      → Inv Q pt l₀ s programs (fresh p s programs) s
  fresh-Inv Q pt l₀ p s programs h = record {
    serial = refl;
    settled = inl refl;
    sort_ended = tt;
    fits = λ i t e.
        let (ms, _, same) = unbegun-lem programs i t e in
        subst (λ x. Fits pt l₀ p s s i x.phase) same tt;
    apart = λ i j t u k l e f ne g g'.
        let (ms, _, same) = unbegun-lem programs i t e in
        absurd (subst (λ x. Inside x.phase k) (sym same) g);
    sort = λ i t e.
        let (ms, known, same) = unbegun-lem programs i t e in
        subst (λ x. All Q (pending x)) same (All-get (All Q) programs i ms h known);
    in_order = λ i t e.
        let (ms, known, same) = unbegun-lem programs i t e in
        subst (λ x. get_elem? programs i ≡ some (pending x)) same known;
  }

  Reach-Inv :
      (Q : Method S L → Type 0) (pt : PthreadLock P) (l₀ : L) (p : P) (s : S)
      (programs : List (List (Method S L))) (c : System P S L)
      → ((m : Method S L) → Q m → Honest m)
      → All (All Q) programs
      → Reach pt l₀ (fresh p s programs) c
      → (s₁ : S) × Inv Q pt l₀ s programs c s₁
  Reach-Inv Q pt l₀ p s programs _ honest h here = (s, fresh-Inv Q pt l₀ p s programs h)
  Reach-Inv Q pt l₀ p s programs _ honest h (next {c} {d} before step) =
      let (s₁, v) = Reach-Inv Q pt l₀ p s programs c honest h before in
      Step-Inv Q pt l₀ s programs c d s₁ honest v step

  -- However the threads are interleaved, the methods that have ended have the values, and leave the
  -- shared state, of the same methods one after the other, each in a single step; the shared state
  -- is just that while nobody is under a guard that may write. Each thread ends its methods in its
  -- order, and of two threads under guards both only read. The methods are of a sort `Q`, whose
  -- methods under read guards do not write; the lock is one of `PthreadLock`.
  pub Reach-fresh-Serial :
      (Q : Method S L → Type 0) (pt : PthreadLock P) (l₀ : L) (p : P) (s : S)
      (programs : List (List (Method S L))) (c : System P S L)
      → ((m : Method S L) → Q m → Honest m)
      → All (All Q) programs
      → Reach pt l₀ (fresh p s programs) c
      → (s₁ : S) × Serial l₀ s c.ended s₁
        × ((c.shared ≡ s₁) ⊎ Writes c.threads)
        × Each (λ i t. get_elem? programs i ≡ some (methods_of i c.ended ++ pending t)) c.threads
        × Apart c.threads
        × All (λ (e : Entry S L). Q e.1) c.ended
  Reach-fresh-Serial Q pt l₀ p s programs c honest h r =
      let (s₁, v) = Reach-Inv Q pt l₀ p s programs c honest h r in
      (s₁, v.serial, v.settled, v.in_order, v.apart, v.sort_ended)
