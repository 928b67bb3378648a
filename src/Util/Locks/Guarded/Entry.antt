-- ===== src/Util/Locks/Guarded/Entry.antt =====
-- A thread on its way into a guard of src/util/pthread_mutex.h or src/util/pthread_rwlock.h.
use mathlib.Core.Path.{subst}
use libevrpc.Base.{
  ℕ, ◌≡◌, refl, sym, ap, ◌∙◌, inl, inr, Bool, none, some, List, [], ◌∷◌, ◌++◌, get_elem?,
  get_elem?-set, get_elem?-set_other, set, ◌==◌, Bool-cases, arith,
}
use libevrpc.Util.Locks.{Kind, Call}
use libevrpc.Util.Locks.Guarded.{
  PthreadLock, Method, Phase, idle, locking, inside, Thread, System, guard, attempt, put_thread,
}
use libevrpc.Util.Locks.Guarded.Answers.{LetIn, unasked, stays, let_in}
use libevrpc.Util.Locks.Guarded.Serial.{run, pending}
use libevrpc.Util.Locks.Guarded.Invariant.{Honest, Inside, Fits, Writes, Inv, Each-set, Apart-set}

module _ {S L : Type 0} where
  pub Writes-set :
      (ts : List (Thread S L)) (i : ℕ) (t t' : Thread S L)
      → get_elem? ts i ≡ some t
      → ((k : Kind) → Inside t.phase k → Inside t'.phase k)
      → Writes ts
      → Writes (set ts i t')
  Writes-set ts i t t' e kept (j, u, k, f, h, ne) = elim (Bool-cases (j == i)) [
    | inl eq ↦
        let same : j ≡ i = ground arith in
        let old : t ≡ u = ground (arith, subst (λ x. get_elem? ts x ≡ some u) same f) in
        (
          i,
          t',
          k,
          get_elem?-set t t' ts i e,
          kept k (subst (λ x. Inside x.phase k) (sym old) h),
          ne,
        )
    | inr other ↦ (j, u, k, get_elem?-set_other t' ts i j (λ e. ground arith) ∙ f, h, ne)
  ]

  -- Another lock is as good as the first to a thread that it still holds.
  pub Fits-lock :
      {P : Type 0} (pt : PthreadLock P) (l₀ : L) (p p' : P) (s s₀ : S) (j : ℕ) (u : Phase S L)
      → ((k : Kind) → pt.Holds p j k → pt.Holds p' j k)
      → Fits pt l₀ p s s₀ j u
      → Fits pt l₀ p' s s₀ j u
  Fits-lock pt l₀ p p' s s₀ j idle held f = f
  Fits-lock pt l₀ p p' s s₀ j (locking m rets) held f = f
  Fits-lock pt l₀ p p' s s₀ j (inside m ws l) held (h, r, e) = (held m.kind h, r, e)

  pub Inside-Holds :
      {P : Type 0} (pt : PthreadLock P) (l₀ : L) (p : P) (s s₀ : S) (j : ℕ) (u : Phase S L)
      (k : Kind)
      → Fits pt l₀ p s s₀ j u
      → Inside u k
      → pt.Holds p j k
  Inside-Holds pt l₀ p s s₀ j idle k f h = absurd h
  Inside-Holds pt l₀ p s s₀ j (locking m rets) k f h = absurd h
  Inside-Holds pt l₀ p s s₀ j (inside m ws l) k (f, _, _) h = subst (λ x. pt.Holds p j x) h f

module _ {P S L : Type 0} (Q : Method S L → Type 0) (pt : PthreadLock P) (l₀ : L) (start : S)
    (programs : List (List (Method S L))) where
  -- A thread that is not inside goes on outside.
  pub outside-Inv :
      (c : System P S L) (s₀ : S) (i : ℕ) (t t' : Thread S L)
      → Inv Q pt l₀ start programs c s₀
      → get_elem? c.threads i ≡ some t
      → ((k : Kind) → ¬ Inside t.phase k)
      → ((k : Kind) → ¬ Inside t'.phase k)
      → pending t' ≡ pending t
      → Fits pt l₀ c.rwlock c.shared s₀ i t'.phase
      → Inv Q pt l₀ start programs (put_thread i t' c) s₀
  outside-Inv c s₀ i t t' v e out out' same fit = record {
    serial = v.serial;
    sort_ended = v.sort_ended;
    settled = elim v.settled [
      | inl s ↦ inl s
      | inr w ↦ inr (Writes-set c.threads i t t' e (λ k h. absurd (out k h)) w)
    ];
    fits = Each-set _ c.threads i t' fit (λ j u ne. v.fits j u);
    apart = Apart-set c.threads i t' (λ j u k l ne f h. absurd (out' k h)) v.apart;
    sort = Each-set _ c.threads i t' (rw same (v.sort i t e)) (λ j u ne. v.sort j u);
    in_order = Each-set _ c.threads i t' (rw same (v.in_order i t e)) (λ j u ne. v.in_order j u);
  }

  pub begins-Inv :
      (c : System P S L) (s₀ : S) (i : ℕ) (m : Method S L) (ms : List (Method S L))
      → Inv Q pt l₀ start programs c s₀
      → get_elem? c.threads i ≡ some (record { todo = m ∷ ms; phase = idle })
      → Inv Q pt l₀ start programs (put_thread i (record { todo = ms; phase = locking m [] }) c) s₀
  begins-Inv c s₀ i m ms v e =
      outside-Inv c s₀ i _ _ v e (λ k h. h) (λ k h. h) refl (unasked m.kind m.try)

  pub waits-Inv :
      (c : System P S L) (s₀ : S) (i : ℕ) (m : Method S L) (ms : List (Method S L)) (rets : List ℕ)
      (r : ℕ) (p : P)
      → Inv Q pt l₀ start programs c s₀
      → get_elem? c.threads i ≡ some (record { todo = ms; phase = locking m rets })
      → pt.Returns c.rwlock i (attempt m) r p
      → guard m.kind m.try (rets ++ r ∷ []) ≡ none
      → Inv Q pt l₀ start programs
          (put_thread i
            (record { todo = ms; phase = locking m (rets ++ r ∷ []) })
            (record c { rwlock = p }))
          s₀
  waits-Inv c s₀ i m ms rets r p v e called g =
      let same = stays pt m.kind m.try rets c.rwlock p i r called (v.fits i _ e) g in
      subst
        (λ q.
          Inv Q pt l₀ start programs
            (put_thread i (record { todo = ms; phase = locking m (rets ++ r ∷ []) })
              (record c { rwlock = q }))
            s₀)
        (sym same) (outside-Inv c s₀ i _ _ v e (λ k h. h) (λ k h. h) refl g)

  -- A thread that is let in finds the shared state as the methods before it have left it.
  LetIn-settled :
      (c : System P S L) (s₀ : S) (p : P) (i : ℕ) (k : Kind)
      → Inv Q pt l₀ start programs c s₀
      → LetIn pt c.rwlock p i k
      → c.shared ≡ s₀
  LetIn-settled c s₀ p i k v (holds, beside) = elim v.settled [
    | inl s ↦ s
    | inr (j, u, l, f, h, ne) ↦
        let held = Inside-Holds pt l₀ c.rwlock c.shared s₀ j u.phase l (v.fits j u f) h in
        absurd (ne (beside j l held).1)
  ]

  pub enters-Inv :
      ((m : Method S L) → Q m → Honest m)
      → (c : System P S L) (s₀ : S) (i : ℕ) (m : Method S L) (ms : List (Method S L))
        (rets : List ℕ) (r : ℕ) (p : P) (done : List Call × Bool)
      → Inv Q pt l₀ start programs c s₀
      → get_elem? c.threads i ≡ some (record { todo = ms; phase = locking m rets })
      → pt.Returns c.rwlock i (attempt m) r p
      → guard m.kind m.try (rets ++ r ∷ []) ≡ some done
      → Inv Q pt l₀ start programs
          (put_thread i
            (record { todo = ms; phase = inside m m.block l₀ })
            (record c { rwlock = p }))
          s₀
  enters-Inv honest c s₀ i m ms rets r p done v e called g =
      let entered = let_in pt m.kind m.try rets c.rwlock p i r done called (v.fits i _ e) g in
      let found = LetIn-settled c s₀ p i m.kind v entered in
      let held : (j : ℕ) (u : Thread S L) (k : Kind)
          → get_elem? c.threads j ≡ some u
          → Inside u.phase k
          → pt.Holds c.rwlock j k =
        λ j u k f h. Inside-Holds pt l₀ c.rwlock c.shared s₀ j u.phase k (v.fits j u f) h in
      record {
        serial = v.serial;
        sort_ended = v.sort_ended;
        settled = inl found;
        fits =
            Each-set _ c.threads i _
              (entered.0, honest m (v.sort i _ e).0, ap (run m.block l₀) found)
              (λ j u ne f.
                Fits-lock pt l₀ c.rwlock p c.shared s₀ j u.phase (λ k h. (entered.1 j k h).0)
                  (v.fits j u f));
        apart =
            Apart-set c.threads i _
              (λ j u k l ne f h h'.
                let (_, theirs, ours) = entered.1 j l (held j u l f h') in (sym h ∙ ours, theirs))
              v.apart;
        sort = Each-set _ c.threads i _ (v.sort i _ e) (λ j u ne. v.sort j u);
        in_order = Each-set _ c.threads i _ (v.in_order i _ e) (λ j u ne. v.in_order j u);
      }
