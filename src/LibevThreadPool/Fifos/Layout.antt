-- ===== src/LibevThreadPool/Fifos/Layout.antt =====
-- Who owns the items of src/rpc_server/libev_thread_pool.cpp in memory: the free list, a call that is
-- running, the queue of a thread, or nobody. Two queues share no item since an address has one owner.
use libevrpc.Base.{
  ℕ, ◌+◌, ◌≡◌, refl, sym, ap, ◌∙◌, ◌≢◌, Option, none, some, ◌<◌, List, [], ◌∷◌, arith, All, All-imp,
  Option-cases, inl, inr, ◌==◌, if◌then◌else◌,
}
use libevrpc.LibevThreadPool.{RequestQueueItem, Heap, RequestQueue, rq_item_push}
use libevrpc.LibevThreadPool.Queue.{Chain, IsLast, Fresh, Holds}
use libevrpc.LibevThreadPool.Drain.{call_of, calls_at}

-- 0 is nobody, 1 the free list, 2 a call that is running, i + 3 the thread of the index i.
abbrev pub Owners : Type 0
Owners = ℕ → ℕ

abbrev pub free_list : ℕ
free_list = 1

abbrev pub in_call : ℕ
in_call = 2

abbrev pub thread : ℕ → ℕ
thread i = i + 3

abbrev pub move : ℕ → ℕ → Owners → Owners
move a k own b = if a == b then k else own b

abbrev pub Owned : Owners → ℕ → List ℕ → Type 0
Owned own k = All (λ a. own a ≡ k)

pub Owned-Fresh : (own : Owners) (k a : ℕ) (xs : List ℕ) → Owned own k xs → own a ≢ k → Fresh a xs
Owned-Fresh own k a xs o n =
    All-imp (λ b. own b ≡ k) (λ b. b ≢ a) (λ b e same. n (ground (arith, e, same))) xs o

-- An item that a list holds, and its owner, are as they were.
abbrev pub Kept : Heap → Heap → Owners → Owners → ℕ → Type 0
Kept h h' own own' a = (h' a ≡ h a) × (own' a ≡ own a)

pub Chain-Kept :
    (h h' : Heap) (own own' : Owners) (p : Option ℕ) (xs : List ℕ)
    → All (Kept h h' own own') xs
    → Chain h p xs
    → Chain h' p xs
Chain-Kept h h' own own' p [] k c = c
Chain-Kept h h' own own' p (a ∷ xs) k c =
    (c.0, rw (k.0.0) (Chain-Kept h h' own own' (h a).next xs k.1 c.1))

pub Owned-Kept :
    (h h' : Heap) (own own' : Owners) (i : ℕ) (xs : List ℕ)
    → All (Kept h h' own own') xs
    → Owned own i xs
    → Owned own' i xs
Owned-Kept h h' own own' i [] k o = tt
Owned-Kept h h' own own' i (a ∷ xs) k o = (k.0.1 ∙ o.0, Owned-Kept h h' own own' i xs k.1 o.1)

calls_at-Kept :
    (h h' : Heap) (own own' : Owners) (xs : List ℕ)
    → All (Kept h h' own own') xs
    → calls_at h' xs ≡ calls_at h xs
calls_at-Kept h h' own own' [] k = refl
calls_at-Kept h h' own own' (a ∷ xs) k =
    let here : h' a ≡ h a = k.0.0 in rw (here, calls_at-Kept h h' own own' xs k.1)

-- The queue of the owner k holds some calls, the oldest first.
abbrev pub Queued : Heap → Owners → ℕ → RequestQueue → List (ℕ × ℕ) → Type 0
Queued h own k q calls = (xs : List ℕ) × Holds h q xs × Owned own k xs × (calls_at h xs ≡ calls)

pub Queued-Kept :
    (h h' : Heap) (own own' : Owners) (k : ℕ) (q : RequestQueue) (calls : List (ℕ × ℕ))
    → ((a : ℕ) → own a ≡ k → Kept h h' own own' a)
    → Queued h own k q calls
    → Queued h' own' k q calls
Queued-Kept h h' own own' k q calls f (xs, (c, l, d), o, e) =
    let kept = All-imp (λ a. own a ≡ k) (Kept h h' own own') f xs o in
    (
      xs,
      (Chain-Kept h h' own own' q.head xs kept c, l, d),
      Owned-Kept h h' own own' k xs kept o,
      calls_at-Kept h h' own own' xs kept ∙ e,
    )

-- RQItemPush changes no items but the pushed one and the last one of the queue.
pub rq_item_push-Kept :
    (item a : ℕ) (h : Heap) (q : RequestQueue)
    → a ≢ item
    → ((t : ℕ) → q.tail ≡ some t → a ≢ t)
    → (rq_item_push item h q).0 a ≡ h a
unfolding rq_item_push
rq_item_push-Kept item a h q n last = elim (Option-cases q.tail) [
  | inl e ↦ rw e (ground arith)
  | inr (t, e) ↦ rw e (ground (arith, last t e))
]

pub IsLast-Owned :
    (own : Owners) (k t : ℕ) (xs : List ℕ) → IsLast (some t) xs → Owned own k xs → own t ≡ k
IsLast-Owned own k t [] l o = absurd (ground arith)
IsLast-Owned own k t (x ∷ []) l o = ground (arith, o.0)
IsLast-Owned own k t (x ∷ y ∷ xs) l o = IsLast-Owned own k t (y ∷ xs) l o.1

pub Owned-move :
    (own : Owners) (k m a : ℕ) (xs : List ℕ)
    → Fresh a xs
    → Owned own k xs
    → Owned (move a m own) k xs
Owned-move own k m a [] f o = tt
Owned-move own k m a (b ∷ xs) f o = (ground (arith, f.0, o.0), Owned-move own k m a xs f.1 o.1)

-- What stands for an item that a thread of n threads may run.
abbrev pub Active : ℕ → Heap → Owners → ℕ → Option ℕ → Option (ℕ × (ℕ × ℕ)) → Type 0
Active n h own a none x = x ≡ none
Active n h own a (some i) x = (x ≡ some (i, call_of (h a))) × (own a ≡ in_call) × (i < n)

pub Active-Kept :
    (n : ℕ) (h h' : Heap) (own own' : Owners) (a : ℕ) (by : Option ℕ) (x : Option (ℕ × (ℕ × ℕ)))
    → (own a ≡ in_call → Kept h h' own own' a)
    → Active n h own a by x
    → Active n h' own' a by x
Active-Kept n h h' own own' a none x kept e = e
Active-Kept n h h' own own' a (some i) x kept (e, o, lt) =
    let (same, owner) = kept o in
    (e ∙ ap (λ (y : RequestQueueItem). some (i, call_of y)) (sym same), owner ∙ o, lt)
