-- ===== src/LibevThreadPool/Fifos/Represents.antt =====
-- When the memory of a pool, src/rpc_server/libev_thread_pool.cpp, stands for queues of calls, and
-- how taking, queueing, running and freeing an item keeps it so.
use libevrpc.Base.{
  ℕ, ◌≡◌, refl, sym, ap, ◌∙◌, ◌≢◌, true, false, Option, some, List, [], ◌∷◌, ◌++◌, ◌==◌,
  if◌then◌else◌, arith, All-imp, All-append, inl, inr, length, get_elem?, get_elem?-set_cases, set,
}
use libevrpc.LibevThreadPool.{Heap, RequestQueue, LibevThread, LibevThreadPool, rq_item_push}
use libevrpc.LibevThreadPool.Queue.{Chain, Distinct, rq_item_push-Holds}
use libevrpc.LibevThreadPool.Drain.{call_of, calls_at, calls_at-same}
use libevrpc.LibevThreadPool.Fifos.{Job, Fifos}
use libevrpc.LibevThreadPool.Fifos.Layout.{
  Owners, free_list, thread, Active, move, Owned-move, Owned, Owned-Fresh, Kept, Chain-Kept,
  Owned-Kept, Queued, Queued-Kept, rq_item_push-Kept, IsLast-Owned,
}

-- The free list, in items that it owns.
abbrev pub Spare : Heap → Owners → Option ℕ → Type 0
Spare h own p = (xs : List ℕ) × Chain h p xs × Owned own free_list xs × Distinct xs

-- Each thread has its calls in its queue.
abbrev pub Each : Heap → Owners → List LibevThread → (ℕ → List Job) → Type 0
Each h own threads jobs =
    (i : ℕ) (t : LibevThread)
    → get_elem? threads i ≡ some t
    → Queued h own (thread i) t.new_request_queue (jobs i)

-- A pool, with the threads that run the items, stands for queues of jobs.
pub record Represents (own : Owners) (p : LibevThreadPool) (running : ℕ → Option ℕ) (f : Fifos)
    : Type 0 where
  pub threads : List LibevThread
  pub started : p.libev_threads ≡ some threads
  pub counted : length threads ≡ p.num_threads
  pub number : p.num_threads ≡ f.number
  pub turn : p.current_thread ≡ f.turn
  pub each : Each p.heap own threads f.jobs
  pub spare : Spare p.heap own p.rqi_freelist
  pub busy : (a : ℕ) → Active f.number p.heap own a (running a) (f.active a)

pub Spare-Kept :
    (h h' : Heap) (own own' : Owners) (p : Option ℕ)
    → ((a : ℕ) → own a ≡ free_list → Kept h h' own own' a)
    → Spare h own p
    → Spare h' own' p
Spare-Kept h h' own own' p f (xs, c, o, d) =
    let kept = All-imp (λ a. own a ≡ free_list) (Kept h h' own own') f xs o in
    (xs, Chain-Kept h h' own own' p xs kept c, Owned-Kept h h' own own' free_list xs kept o, d)

-- Where the queue of one thread is replaced and the others are kept.
pub Each-set :
    (h h' : Heap) (own own' : Owners) (threads : List LibevThread) (jobs : ℕ → List Job) (i : ℕ)
    (t' : LibevThread) (js : List Job)
    → ((a j : ℕ) → own a ≡ thread j → j ≢ i → Kept h h' own own' a)
    → Queued h' own' (thread i) t'.new_request_queue js
    → Each h own threads jobs
    → Each h' own' (set threads i t') (λ j. if j == i then js else jobs j)
Each-set h h' own own' threads jobs i t' js kept q each j u e =
    elim (get_elem?-set_cases t' u threads i j e) [
      | inl (here, now) ↦
          let test : (j == i) ≡ true = ground (arith, here) in rw (test, now, here) q
      | inr (other, was) ↦
          let test : (j == i) ≡ false = ground (arith, other) in
          rw test (
            Queued-Kept h h' own own' (thread j) u.new_request_queue (jobs j)
              (λ a o. kept a j o other) (each j u was))
    ]

calls_at-append :
    (h : Heap) (xs : List ℕ) (a : ℕ)
    → calls_at h (xs ++ a ∷ []) ≡ calls_at h xs ++ call_of (h a) ∷ []
calls_at-append h [] a = refl
calls_at-append h (x ∷ xs) a = ap (◌∷◌ (call_of (h x))) (calls_at-append h xs a)

-- A queue with one more item, which nobody owned.
pub push-Queued :
    (h : Heap) (own : Owners) (k item : ℕ) (q : RequestQueue) (js : List Job)
    → own item ≡ 0
    → k ≢ 0
    → Queued h own k q js
    → let (h', q') = rq_item_push item h q in
      Queued h' (move item k own) k q' (js ++ call_of (h item) ∷ [])
push-Queued h own k item q js nobody some_owner (xs, holds, o, e) =
    let fresh = Owned-Fresh own k item xs o (λ z. some_owner (sym z ∙ nobody)) in
    let (holds', same) = rq_item_push-Holds item h q xs holds fresh in
    let h' = (rq_item_push item h q).0 in
    let calls : (a : ℕ) → call_of (h' a) ≡ call_of (h a) = λ a. ground (arith, same a) in
    let mine : move item k own item ≡ k = ground arith in
    (
      xs ++ item ∷ [],
      holds',
      All-append (λ a. move item k own a ≡ k) xs (item ∷ []) (Owned-move own k k item xs fresh o)
          (mine, tt),
      calls_at-same h h' (xs ++ item ∷ []) calls
          ∙ calls_at-append h xs item
          ∙ ap (λ (cs : List Job). cs ++ call_of (h item) ∷ []) e,
    )

-- The items of another owner stay as they are.
pub push-Kept :
    (h : Heap) (own : Owners) (k item : ℕ) (q : RequestQueue) (js : List Job)
    → own item ≡ 0
    → Queued h own k q js
    → (a : ℕ) → own a ≢ 0
    → own a ≢ k
    → Kept h (rq_item_push item h q).0 own (move item k own) a
push-Kept h own k item q js nobody (xs, (c, l, d), o, e) a some_owner other =
    let not_item : a ≢ item = λ same. some_owner (ap own same ∙ nobody) in
    (
      rq_item_push-Kept item a h q not_item
          (λ t is_tail same. other (ap own same ∙ IsLast-Owned own k t xs (rw is_tail at l) o)),
      ground (arith, not_item),
    )
