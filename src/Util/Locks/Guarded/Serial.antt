-- ===== src/Util/Locks/Guarded/Serial.antt =====
-- The methods of src/util/pthread_mutex.h's and src/util/pthread_rwlock.h's guards one after the
-- other, each as a single step.
use libevrpc.Base.{ℕ, ◌≡◌, ap, ◌∙◌, List, [], ◌∷◌, ◌++◌, ◌==◌, if◌then◌else◌}
use libevrpc.Util.Locks.Guarded.{Work, Method, idle, locking, inside, Thread, Entry}

module _ {S L : Type 0} where
  abbrev pub run : List (Work S L) → L → S → L × S
  run [] l s = (l, s)
  run (w ∷ ws) l s = run ws (w l s).0 (w l s).1

  -- Each method of a list, from its first step to its last, before the next; it ends with the values
  -- that the list names.
  abbrev pub Serial : L → S → List (Entry S L) → S → Type 0
  Serial l₀ s [] s' = s ≡ s'
  Serial l₀ s ((i, m, l) ∷ es) s' =
      ((run m.block l₀ s).0 ≡ l) × Serial l₀ (run m.block l₀ s).1 es s'

  pub Serial-append :
      (l₀ : L) (es : List (Entry S L)) (s t u : S) (i : ℕ) (m : Method S L) (l : L)
      → Serial l₀ s es t
      → run m.block l₀ t ≡ (l, u)
      → Serial l₀ s (es ++ (i, m, l) ∷ []) u
  Serial-append l₀ [] s t u i m l h e =
      let e' = ap (λ x. run m.block l₀ x) h ∙ e in
      (ap (λ (x : L × S). x.0) e', ap (λ (x : L × S). x.1) e')
  Serial-append l₀ ((j, n, k) ∷ es) s t u i m l (h, hs) e =
      (h, Serial-append l₀ es _ t u i m l hs e)

  -- The methods of a thread.
  abbrev pub methods_of : ℕ → List (Entry S L) → List (Method S L)
  methods_of i [] = []
  methods_of i ((j, m, l) ∷ es) = if j == i then m ∷ methods_of i es else methods_of i es

  -- The methods that a thread has not ended.
  abbrev pub pending : Thread S L → List (Method S L)
  pending t = elim t.phase [
    | idle ↦ t.todo
    | locking m rets ↦ m ∷ t.todo
    | inside m ws l ↦ m ∷ t.todo
  ]
