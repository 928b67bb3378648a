-- ===== src/Util/Locks/Guarded/Work.antt =====
-- A thread under a guard of src/util/pthread_mutex.h or src/util/pthread_rwlock.h, and its way out.
use mathlib.Core.Path.{subst}
use libevrpc.Base.{
  ℕ, ◌≡◌, refl, sym, ap, ◌∙◌, ◌≢◌, ◌⊎◌, inl, inr, some, List, [], ◌∷◌, ◌++◌, get_elem?,
  get_elem?-set, All-append, ◌==◌, Bool-cases, arith,
}
use libevrpc.Util.Locks.{Kind, mutex, read, write, unlock}
use libevrpc.Util.Locks.Guarded.{
  PthreadLock, Work, Method, Phase, idle, locking, inside, Thread, Entry, System, put_thread,
}
use libevrpc.Util.Locks.Guarded.Serial.{methods_of, Serial-append}
use libevrpc.Util.Locks.Guarded.Invariant.{Inside, Fits, Inv, Each-set, Apart-set}
use libevrpc.Util.Locks.Guarded.Entry.{Fits-lock}

Kind-cases : (k : Kind) → (k ≡ read) ⊎ (k ≢ read)
Kind-cases mutex = inr (λ h. cc)
Kind-cases read = inl refl
Kind-cases write = inr (λ h. cc)

module _ {S L : Type 0} where
  Inside-same : (u : Phase S L) (k l : Kind) → Inside u k → Inside u l → k ≡ l
  Inside-same idle k l h g = absurd h
  Inside-same (locking m rets) k l h g = absurd h
  Inside-same (inside m ws x) k l h g = sym h ∙ g

  -- What the shared state is does not matter to a thread that is not inside.
  Fits-outside :
      {P : Type 0} (pt : PthreadLock P) (l₀ : L) (p : P) (s s' s₀ s₁ : S) (j : ℕ) (u : Phase S L)
      → ((k : Kind) → ¬ Inside u k)
      → Fits pt l₀ p s s₀ j u
      → Fits pt l₀ p s' s₁ j u
  Fits-outside pt l₀ p s s' s₀ s₁ j idle out f = f
  Fits-outside pt l₀ p s s' s₀ s₁ j (locking m rets) out f = f
  Fits-outside pt l₀ p s s' s₀ s₁ j (inside m ws l) out f = absurd (out m.kind refl)

module _ {P S L : Type 0} (Q : Method S L → Type 0) (pt : PthreadLock P) (l₀ : L) (start : S)
    (programs : List (List (Method S L))) where
  -- While a thread only reads, nobody has changed the shared state.
  reads-settled :
      (c : System P S L) (s₀ : S) (i : ℕ) (t : Thread S L) (k : Kind)
      → Inv Q pt l₀ start programs c s₀
      → get_elem? c.threads i ≡ some t
      → Inside t.phase k
      → k ≡ read
      → c.shared ≡ s₀
  reads-settled c s₀ i t k v e h reads = elim v.settled [
    | inl s ↦ s
    | inr (j, u, l, f, g, ne) ↦ elim (Bool-cases (j == i)) [
      | inl eq ↦
          let same : j ≡ i = ground arith in
          let old : u ≡ t = ground (arith, subst (λ x. get_elem? c.threads x ≡ some u) same f) in
          absurd (ne (Inside-same t.phase l k (subst (λ x. Inside x.phase l) old g) h ∙ reads))
      | inr other ↦ absurd (ne (v.apart i j t u k l e f (λ x. ground arith) h g).1)
    ]
  ]

  -- The other threads do not mind what a thread inside does: if it only reads, it changes nothing,
  -- and otherwise they are outside.
  others-Fits :
      (c : System P S L) (s₀ : S) (i : ℕ) (t : Thread S L) (k : Kind) (p : P) (s s₁ : S)
      → Inv Q pt l₀ start programs c s₀
      → get_elem? c.threads i ≡ some t
      → Inside t.phase k
      → ((j : ℕ) (l : Kind) → j ≢ i → pt.Holds c.rwlock j l → pt.Holds p j l)
      → (k ≡ read → (s ≡ c.shared) × (s₁ ≡ s₀))
      → (j : ℕ) (u : Thread S L) → j ≢ i
      → get_elem? c.threads j ≡ some u
      → Fits pt l₀ p s s₁ j u.phase
  others-Fits c s₀ i t k p s s₁ v e h held calm j u ne f =
      let kept =
        Fits-lock pt l₀ c.rwlock p c.shared s₀ j u.phase (λ l. held j l ne) (v.fits j u f) in
      elim (Kind-cases k) [
        | inl reads ↦
            let (now, then_) = calm reads in
            subst (λ x. Fits pt l₀ p x s₁ j u.phase) (sym now)
              (subst (λ x. Fits pt l₀ p c.shared x j u.phase) (sym then_) kept)
        | inr writes ↦
            Fits-outside pt l₀ p c.shared s s₀ s₁ j u.phase
              (λ l g. writes (v.apart i j t u k l e f (λ x. ne (sym x)) h g).0) kept
      ]

  pub works-Inv :
      (c : System P S L) (s₀ : S) (i : ℕ) (m : Method S L) (ms : List (Method S L)) (w : Work S L)
      (ws : List (Work S L)) (l : L)
      → Inv Q pt l₀ start programs c s₀
      → get_elem? c.threads i ≡ some (record { todo = ms; phase = inside m (w ∷ ws) l })
      → Inv Q pt l₀ start programs
          (put_thread i
            (record { todo = ms; phase = inside m ws (w l c.shared).0 })
            (record c { shared = (w l c.shared).1 }))
          s₀
  works-Inv c s₀ i m ms w ws l v e =
      let (holds, reads, leads) = v.fits i _ e in
      let t' : Thread S L = record { todo = ms; phase = inside m ws (w l c.shared).0 } in
      record {
        serial = v.serial;
        sort_ended = v.sort_ended;
        settled = elim (Kind-cases m.kind) [
          | inl r ↦ inl ((reads r).0 l c.shared ∙ reads-settled c s₀ i _ m.kind v e refl r)
          | inr n ↦ inr (i, t', m.kind, get_elem?-set _ t' c.threads i e, refl, n)
        ];
        fits =
            Each-set _ c.threads i t' (holds, λ r. (reads r).1, leads)
              (others-Fits c s₀ i _ m.kind c.rwlock (w l c.shared).1 s₀ v e refl (λ j k ne h. h)
                (λ r. ((reads r).0 l c.shared, refl)));
        apart =
            Apart-set c.threads i t'
              (λ j u k k' ne f h g. v.apart i j _ u k k' e f (λ x. ne (sym x)) h g) v.apart;
        sort = Each-set _ c.threads i t' (v.sort i _ e) (λ j u ne. v.sort j u);
        in_order = Each-set _ c.threads i t' (v.in_order i _ e) (λ j u ne. v.in_order j u);
      }

  methods_of-here :
      (i : ℕ) (m : Method S L) (l : L) (es : List (Entry S L)) (ms : List (Method S L))
      → methods_of i (es ++ (i, m, l) ∷ []) ++ ms ≡ methods_of i es ++ m ∷ ms
  methods_of-here i m l [] ms = ground arith
  methods_of-here i m l ((j, n, k) ∷ es) ms = ground (arith, methods_of-here i m l es ms)

  methods_of-other :
      (i j : ℕ) (m : Method S L) (l : L) (es : List (Entry S L))
      → j ≢ i
      → methods_of j (es ++ (i, m, l) ∷ []) ≡ methods_of j es
  methods_of-other i j m l [] ne = ground arith
  methods_of-other i j m l ((k, n, x) ∷ es) ne = ground (arith, methods_of-other i j m l es ne)

  pub leaves-Inv :
      (c : System P S L) (s₀ : S) (i : ℕ) (m : Method S L) (ms : List (Method S L)) (l : L) (r : ℕ)
      (p : P)
      → Inv Q pt l₀ start programs c s₀
      → get_elem? c.threads i ≡ some (record { todo = ms; phase = inside m [] l })
      → pt.Returns c.rwlock i unlock r p
      → Inv Q pt l₀ start programs
          (put_thread i
            (record { todo = ms; phase = idle })
            (record c { rwlock = p; ended = c.ended ++ (i, m, l) ∷ [] }))
          c.shared
  leaves-Inv c s₀ i m ms l r p v e called =
      let (holds, reads, leads) = v.fits i _ e in
      record {
        serial = Serial-append l₀ c.ended start s₀ c.shared i m l v.serial (sym leads);
        settled = inl refl;
        sort_ended = All-append _ c.ended ((i, m, l) ∷ []) v.sort_ended ((v.sort i _ e).0, tt);
        fits = Each-set _ c.threads i _ tt (
            others-Fits c s₀ i _ m.kind p c.shared c.shared v e refl
              (λ j k ne h. pt.unlock_returns c.rwlock p i j r k called ne h)
              (λ q. (refl, reads-settled c s₀ i _ m.kind v e refl q)));
        apart = Apart-set c.threads i _ (λ j u k k' ne f h g. absurd h) v.apart;
        sort = Each-set _ c.threads i _ (v.sort i _ e).1 (λ j u ne. v.sort j u);
        in_order =
            Each-set _ c.threads i _
              (v.in_order i _ e ∙ ap some (sym (methods_of-here i m l c.ended ms)))
              (λ j u ne f. rw (methods_of-other i j m l c.ended ne) (v.in_order j u f));
      }
