-- ===== src/Util/Locks/Guarded/Invariant.antt =====
-- The invariant of threads under the guards of src/util/pthread_mutex.h and
-- src/util/pthread_rwlock.h.
use mathlib.Core.Path.{subst}
use libevrpc.Base.{
  ℕ, ◌≡◌, sym, ◌∙◌, ◌≢◌, ◌⊎◌, inl, inr, none, some, List, ◌++◌, get_elem?, get_elem?-set_cases, set,
  All,
}
use libevrpc.Util.Locks.{Kind, read}
use libevrpc.Util.Locks.Guarded.{
  PthreadLock, Work, Method, Phase, idle, locking, inside, Thread, Entry, System, guard,
}
use libevrpc.Util.Locks.Guarded.Serial.{run, Serial, methods_of, pending}

module _ {S L : Type 0} where
  -- A method under a read guard does not write.
  abbrev pub OnlyReads : List (Work S L) → Type 0
  OnlyReads ws = All (λ (w : Work S L). (l : L) (s : S) → (w l s).1 ≡ s) ws

  abbrev pub Honest : Method S L → Type 0
  Honest m = m.kind ≡ read → OnlyReads m.block

  -- A thread in a phase is inside a method of a kind.
  abbrev pub Inside : Phase S L → Kind → Type 0
  Inside idle k = ⊥
  Inside (locking m rets) k = ⊥
  Inside (inside m ws l) k = m.kind ≡ k

  -- What is true of a thread when the methods before it have left the shared state `s₀`: a guard that
  -- waits has no answer yet; a thread inside is in the lock, and what is left of its method leads
  -- where the whole method leads from `s₀`.
  abbrev pub Fits : {P : Type 0} → PthreadLock P → L → P → S → S → ℕ → Phase S L → Type 0
  Fits pt l₀ p s s₀ i idle = Unit
  Fits pt l₀ p s s₀ i (locking m rets) = guard m.kind m.try rets ≡ none
  Fits pt l₀ p s s₀ i (inside m ws l) =
      pt.Holds p i m.kind × (m.kind ≡ read → OnlyReads ws) × (run ws l s ≡ run m.block l₀ s₀)

  -- Something is true of each thread.
  abbrev pub Each : (ℕ → Thread S L → Type 0) → List (Thread S L) → Type 0
  Each Q ts = (i : ℕ) (t : Thread S L) → get_elem? ts i ≡ some t → Q i t

  -- Of two threads inside, both only read.
  abbrev pub Apart : List (Thread S L) → Type 0
  Apart ts =
      (i j : ℕ) (t u : Thread S L) (k l : Kind)
      → get_elem? ts i ≡ some t
      → get_elem? ts j ≡ some u
      → i ≢ j
      → Inside t.phase k
      → Inside u.phase l
      → (k ≡ read) × (l ≡ read)

  -- A thread is inside that may write.
  abbrev pub Writes : List (Thread S L) → Type 0
  Writes ts =
      (i : ℕ) × (t : Thread S L) × (k : Kind) × (get_elem? ts i ≡ some t)
      × Inside t.phase k
      × (k ≢ read)

  -- The threads run methods of one sort.
  pub record Inv {P : Type 0} (Q : Method S L → Type 0) (pt : PthreadLock P) (l₀ : L) (start : S)
      (programs : List (List (Method S L))) (c : System P S L) (s₀ : S) : Type 0 where
    pub serial : Serial l₀ start c.ended s₀
    pub settled : (c.shared ≡ s₀) ⊎ Writes c.threads
    pub fits : Each (λ i t. Fits pt l₀ c.rwlock c.shared s₀ i t.phase) c.threads
    pub apart : Apart c.threads
    pub sort : Each (λ i t. All Q (pending t)) c.threads
    pub sort_ended : All (λ (e : Entry S L). Q e.1) c.ended
    pub in_order :
        Each (λ i t. get_elem? programs i ≡ some (methods_of i c.ended ++ pending t)) c.threads

  -- One thread changes.
  pub Each-set :
      (Q : ℕ → Thread S L → Type 0) (ts : List (Thread S L)) (i : ℕ) (t' : Thread S L)
      → Q i t'
      → ((j : ℕ) (u : Thread S L) → j ≢ i → get_elem? ts j ≡ some u → Q j u)
      → Each Q (set ts i t')
  Each-set Q ts i t' here others j u e = elim (get_elem?-set_cases t' u ts i j e) [
    | inl (same, now) ↦ rw same (rw now here)
    | inr (other, was) ↦ others j u other was
  ]

  pub Apart-set :
      (ts : List (Thread S L)) (i : ℕ) (t' : Thread S L)
      → ((j : ℕ) (u : Thread S L) (k l : Kind)
          → j ≢ i
          → get_elem? ts j ≡ some u
          → Inside t'.phase k
          → Inside u.phase l
          → (k ≡ read) × (l ≡ read))
      → Apart ts
      → Apart (set ts i t')
  Apart-set ts i t' beside a j₁ j₂ t u k l e f ne h g = elim (get_elem?-set_cases t' t ts i j₁ e) [
    | inl (same, now) ↦ elim (get_elem?-set_cases t' u ts i j₂ f) [
      | inl (same', _) ↦ absurd (ne (same ∙ sym same'))
      | inr (other, was) ↦ beside j₂ u k l other was (subst (λ x. Inside x.phase k) now h) g
    ]
    | inr (other, was) ↦ elim (get_elem?-set_cases t' u ts i j₂ f) [
      | inl (same', now) ↦
          let (p, q) = beside j₁ t l k other was (subst (λ x. Inside x.phase l) now g) h in (q, p)
      | inr (_, was') ↦ a j₁ j₂ t u k l was was' ne h g
    ]
  ]
