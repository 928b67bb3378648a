-- ===== src/LibevThreadPool/Queue.antt =====
-- RQItemPush and RQItemPop of src/rpc_server/libev_thread_pool.cpp as a queue of addresses.
use mathlib.Core.Path.{subst}
use libevrpc.Base.{
  ℕ, ◌≡◌, refl, sym, ◌≢◌, ◌⊎◌, Option, none, some, List, [], ◌∷◌, ◌++◌, arith, All, All-append,
  Option-cases, inl, inr,
}
use libevrpc.LibevThreadPool.{
  RequestQueueItem, Heap, write, set_next, RequestQueue, rq_item_push, rq_item_pop,
}

-- The items that are linked from a pointer on.
abbrev pub Chain : Heap → Option ℕ → List ℕ → Type 0
Chain h p [] = p ≡ none
Chain h p (a ∷ xs) = (p ≡ some a) × Chain h (h a).next xs

abbrev pub IsLast : Option ℕ → List ℕ → Type 0
IsLast t [] = t ≡ none
IsLast t (a ∷ []) = t ≡ some a
IsLast t (a ∷ b ∷ xs) = IsLast t (b ∷ xs)

abbrev pub Fresh : ℕ → List ℕ → Type 0
Fresh a = All (λ b. b ≢ a)

abbrev pub Distinct : List ℕ → Type 0
Distinct [] = Unit
Distinct (a ∷ xs) = Fresh a xs × Distinct xs

-- A queue in memory that holds the items at the given addresses, the oldest first.
abbrev pub Holds : Heap → RequestQueue → List ℕ → Type 0
Holds h q xs = Chain h q.head xs × IsLast q.tail xs × Distinct xs

-- A write to another address leaves a chain as it is.
pub Chain-write :
    (h : Heap) (p : Option ℕ) (a : ℕ) (item : RequestQueueItem) (xs : List ℕ)
    → Fresh a xs
    → Chain h p xs
    → Chain (write a item h) p xs
Chain-write h p a item [] f c = c
Chain-write h p a item (b ∷ xs) f c =
    let kept : write a item h b ≡ h b = ground (arith, f.0) in
    (c.0, rw kept (Chain-write h (h b).next a item xs f.1 c.1))

IsLast-Fresh : (t b : ℕ) (xs : List ℕ) → Fresh b xs → IsLast (some t) xs → b ≢ t
IsLast-Fresh t b [] f l = absurd (ground arith)
IsLast-Fresh t b (x ∷ []) f l = λ e. f.0 (ground arith)
IsLast-Fresh t b (x ∷ y ∷ xs) f l = IsLast-Fresh t b (y ∷ xs) f.1 l

-- Linking a new last item to the former one.
Chain-append :
    (h : Heap) (p : Option ℕ) (t a : ℕ) (xs : List ℕ)
    → Fresh a xs
    → Distinct xs
    → IsLast (some t) xs
    → (h a).next ≡ none
    → Chain h p xs
    → Chain (set_next t (some a) h) p (xs ++ a ∷ [])
Chain-append h p t a [] f d l e c = absurd (ground arith)
Chain-append h p t a (b ∷ []) f d l e c =
    let same : t ≡ b = ground arith in
    let linked : (set_next t (some a) h b).next ≡ some a = ground (arith, same) in
    let kept : (set_next t (some a) h a).next ≡ none = ground (arith, same, f.0) in
    (c.0, (linked, kept))
Chain-append h p t a (b ∷ b' ∷ xs) f d l e c =
    let other : b ≢ t = IsLast-Fresh t b (b' ∷ xs) d.0 l in
    let kept : set_next t (some a) h b ≡ h b = ground (arith, other) in
    (c.0, rw kept (Chain-append h (h b).next t a (b' ∷ xs) f.1 d.1 l e c.1))

IsLast-append : (a : ℕ) (xs : List ℕ) → IsLast (some a) (xs ++ a ∷ [])
IsLast-append a [] = refl
IsLast-append a (x ∷ []) = refl
IsLast-append a (x ∷ y ∷ xs) = IsLast-append a (y ∷ xs)

Distinct-append : (a : ℕ) (xs : List ℕ) → Fresh a xs → Distinct xs → Distinct (xs ++ a ∷ [])
Distinct-append a [] f d = (tt, tt)
Distinct-append a (x ∷ xs) f d =
    (All-append (λ b. b ≢ x) xs (a ∷ []) d.0 (λ e. f.0 (sym e), tt), Distinct-append a xs f.1 d.1)

IsLast-none : (xs : List ℕ) → IsLast none xs → xs ≡ []
IsLast-none [] l = refl
IsLast-none (x ∷ []) l = absurd (ground arith)
IsLast-none (x ∷ y ∷ xs) l = ground (arith, IsLast-none (y ∷ xs) l)

-- RQItemPush puts an item that the queue does not hold behind all others; the items keep their
-- calls.
pub rq_item_push-Holds :
    (item : ℕ) (h : Heap) (q : RequestQueue) (xs : List ℕ)
    → Holds h q xs
    → Fresh item xs
    → let (h', q') = rq_item_push item h q in
      Holds h' q' (xs ++ item ∷ [])
      × ((a : ℕ) → ((h' a).processor ≡ (h a).processor) × ((h' a).param ≡ (h a).param))
unfolding rq_item_push
rq_item_push-Holds item h q xs (c, l, d) f =
    let h1 = set_next item none h in
    let unlinked : (h1 item).next ≡ none = ground arith in
    elim (Option-cases q.tail) [
      | inl e ↦
          let empty : xs ≡ [] = IsLast-none xs (rw e at l) in
          rw (e, empty) (((refl, unlinked), refl, (tt, tt)), λ a. (ground arith, ground arith))
      | inr (t, e) ↦
          let l' : IsLast (some t) xs = rw e at l in
          let c' = Chain-write h q.head item (record (h item) { next = none }) xs f c in
          rw e (
            (
              Chain-append h1 q.head t item xs f d l' unlinked c',
              IsLast-append item xs,
              Distinct-append item xs f d,
            ),
            λ a. (ground arith, ground arith),
          )
    ]

-- RQItemPop takes the oldest item of a queue that holds one, and gives NULL on an empty queue.
pub rq_item_pop-Holds :
    (h : Heap) (q : RequestQueue) (xs : List ℕ)
    → Holds h q xs
    → ((xs ≡ []) × (rq_item_pop h q ≡ (none, q)))
      ⊎ ((a : ℕ) × (rest : List ℕ) × (xs ≡ a ∷ rest)
          × ((rq_item_pop h q).0 ≡ some a)
          × Holds h (rq_item_pop h q).1 rest)
unfolding rq_item_pop
rq_item_pop-Holds h q [] (c, l, d) = inl (refl, rw c)
rq_item_pop-Holds h q (a ∷ []) (c, l, d) = inr (a, [], refl, rw c.0, ground arith)
rq_item_pop-Holds h q (a ∷ b ∷ xs) (c, l, d) =
    let tail : (rq_item_pop h q).1.tail ≡ q.tail = ground (arith, c.0, c.1.0) in
    inr (
      a,
      b ∷ xs,
      refl,
      rw c.0,
      ((ground (arith, c.0, c.1.0), c.1.1), subst (λ t. IsLast t (b ∷ xs)) (sym tail) l, d.1),
    )
