-- ===== src/LibevThreadPool/Spread.antt =====
-- DispatchRpcCall, LibevProcessor and RestartThread of src/rpc_server/libev_thread_pool.cpp.
use native.Mathlib.Nat.{mod-add-mod}
use libevrpc.Base.{
  ℕ, suc, ◌+◌, ◌%◌, ◌≤◌, ◌≡◌, refl, ap, sym, ◌∙◌, ◌≢◌, ◌⊎◌, Bool, true, false, Option, none, some,
  List, [], ◌∷◌, ◌++◌, ◌==◌, if◌then◌else◌, arith, All, get_elem?, get_elem?-set, set, Option-cases,
  inl, inr, ltb,
}
use libevrpc.Base.Int.{pos, negsuc}
use libevrpc.Base.Fault.{◌>>=◌, ok, fault, bind_ok}
use libevrpc.LibevThreadPool.{
  RequestQueueItem, Heap, write, RequestQueue, LibevThread, LibevThreadPool, rq_item_new,
  rq_item_push, rq_item_pop, rq_item_free, next_thread, write_call, give_call, dispatch_new,
  dispatch_rpc_call, begin_call, end_call, libev_processor, link_block, link_items, thread_index,
  restart_thread,
}
use libevrpc.LibevThreadPool.Queue.{
  Chain, Fresh, Distinct, Holds, Chain-write, rq_item_push-Holds, rq_item_pop-Holds,
}

Holds-write :
    (h : Heap) (q : RequestQueue) (a : ℕ) (item : RequestQueueItem) (xs : List ℕ)
    → Fresh a xs
    → Holds h q xs
    → Holds (write a item h) q xs
Holds-write h q a item xs f (c, l, d) = (Chain-write h q.head a item xs f c, l, d)

-- A call is queued last at the thread that is next in turn, in the first item of the free list.
pub dispatch_rpc_call-Holds :
    (malloc : Option ℕ) (write_ok : Bool) (rpc_call arg item : ℕ) (free xs : List ℕ)
    (p : LibevThreadPool) (threads : List LibevThread) (t : LibevThread)
    → p.libev_threads ≡ some threads
    → p.num_threads ≢ 0
    → get_elem? threads (next_thread p.current_thread % p.num_threads) ≡ some t
    → Chain p.heap p.rqi_freelist (item ∷ free)
    → Holds p.heap t.new_request_queue xs
    → Fresh item xs
    → let turn = next_thread p.current_thread % p.num_threads in
      (p' : LibevThreadPool) × (threads' : List LibevThread) × (t' : LibevThread)
      × (dispatch_rpc_call malloc write_ok rpc_call arg p ≡ ok (p', true))
      × (p'.current_thread ≡ pos turn)
      × (p'.libev_threads ≡ some threads')
      × (get_elem? threads' turn ≡ some t')
      × Holds p'.heap t'.new_request_queue (xs ++ item ∷ [])
      × ((p'.heap item).processor ≡ rpc_call)
      × ((p'.heap item).param ≡ arg)
unfolding dispatch_rpc_call dispatch_new give_call rq_item_new
dispatch_rpc_call-Holds malloc write_ok rpc_call arg item free xs p threads t e n g c q f =
    let turn = next_thread p.current_thread % p.num_threads in
    let h = write_call item rpc_call arg p.heap in
    let pushed = rq_item_push item h t.new_request_queue in
    let t' : LibevThread = record t {
      new_request_queue = pushed.1;
      notified = if write_ok then t.notified ++ b'c' ∷ [] else t.notified;
    } in
    let p' : LibevThreadPool = record p {
      current_thread = pos turn;
      libev_threads = some (set threads turn t');
      rqi_freelist = (p.heap item).next;
      heap = pushed.0;
    } in
    let (holds, same) =
      rq_item_push-Holds item h t.new_request_queue xs
        (Holds-write p.heap t.new_request_queue item
          (record (p.heap item) { processor = rpc_call; param = arg }) xs f q)
        f in
    let some_threads : (p.num_threads == 0) ≡ false = ground arith in
    (
      p',
      set threads turn t',
      t',
      rw (e, c.0, some_threads, g),
      refl,
      refl,
      get_elem?-set t t' threads turn g,
      holds,
      (same item).0 ∙ ground arith,
      (same item).1 ∙ ground arith,
    )

-- A thread that is notified runs the oldest call of its queue, counts it and frees its item; with
-- no call in the queue it reads through NULL.
pub libev_processor-Holds :
    (index : ℕ) (p : LibevThreadPool) (threads : List LibevThread) (me : LibevThread) (xs : List ℕ)
    → p.libev_threads ≡ some threads
    → get_elem? threads index ≡ some me
    → Holds p.heap me.new_request_queue xs
    → ((xs ≡ []) × (libev_processor index p ≡ fault))
      ⊎ ((item : ℕ) × (rest : List ℕ) × (p' : LibevThreadPool) × (threads' : List LibevThread)
          × (me' : LibevThread) × (xs ≡ item ∷ rest)
          × (libev_processor index p ≡ ok (p.heap item, p'))
          × (p'.libev_threads ≡ some threads')
          × (get_elem? threads' index ≡ some me')
          × Holds p'.heap me'.new_request_queue rest
          × (me'.running_version ≡ me.running_version + 1)
          × (p'.rqi_freelist ≡ some item)
          × ((p'.heap item).next ≡ p.rqi_freelist))
unfolding libev_processor begin_call end_call rq_item_free
libev_processor-Holds index p threads me xs e g q =
    elim (rq_item_pop-Holds p.heap me.new_request_queue xs q) [
      | inl (empty, popped) ↦ inl (empty, rw (e, g, popped))
      | inr (item, rest, split, popped, holds) ↦
          let queue = (rq_item_pop p.heap me.new_request_queue).1 in
          let me1 : LibevThread = record me { new_request_queue = queue } in
          let me' : LibevThread = record me1 { running_version = me.running_version + 1 } in
          let threads1 = set threads index me1 in
          let at1 : get_elem? threads1 index ≡ some me1 = get_elem?-set me me1 threads index g in
          let p1 : LibevThreadPool = record p { libev_threads = some (set threads1 index me') } in
          let d : Distinct (item ∷ rest) = rw split at q.2 in
          inr (
            item,
            rest,
            rq_item_free item p1,
            set threads1 index me',
            me',
            split,
            rw (e, g, popped, at1),
            refl,
            get_elem?-set me1 me' threads1 index at1,
            Holds-write p.heap queue item (record (p.heap item) { next = p.rqi_freelist }) rest d.0
                holds,
            refl,
            refl,
            ground arith,
          )
    ]

-- The calls of a pool, each accepted by DispatchRpcCall, one after the other.
pub data Dispatched : ℕ → LibevThreadPool → LibevThreadPool → Type 0 where
  nothing : (p : LibevThreadPool) → Dispatched 0 p p
  one_more :
      {k : ℕ} {p q : LibevThreadPool} (malloc : Option ℕ) (write_ok : Bool) (rpc_call arg : ℕ)
      (r : LibevThreadPool)
      → Dispatched k p q
      → dispatch_rpc_call malloc write_ok rpc_call arg q ≡ ok (r, true)
      → Dispatched (suc k) p r

pub rq_item_new_keeps :
    (malloc : Option ℕ) (p : LibevThreadPool) (got : LibevThreadPool × Option ℕ)
    → rq_item_new malloc p ≡ ok got
    → (got.0.current_thread ≡ p.current_thread) × (got.0.num_threads ≡ p.num_threads)
unfolding rq_item_new link_block link_items
rq_item_new_keeps malloc p got e = ground (arith, e)

abbrev pub Turns : LibevThreadPool → LibevThreadPool → Type 0
Turns p r =
    (r.current_thread ≡ pos (next_thread p.current_thread % p.num_threads))
    × (r.num_threads ≡ p.num_threads)
    × (p.num_threads ≢ 0)

give_call-Turns :
    (write_ok : Bool) (rpc_call arg item : ℕ) (threads : List LibevThread) (p r : LibevThreadPool)
    (b : Bool)
    → give_call write_ok rpc_call arg item threads p ≡ ok (r, b)
    → Turns p r
unfolding give_call
give_call-Turns write_ok rpc_call arg item threads p r b e = ground arith

dispatch_new-Turns :
    (write_ok : Bool) (rpc_call arg : ℕ) (threads : List LibevThread)
    (got : LibevThreadPool × Option ℕ) (r : LibevThreadPool)
    → dispatch_new write_ok rpc_call arg threads got ≡ ok (r, true)
    → Turns got.0 r
unfolding dispatch_new
dispatch_new-Turns write_ok rpc_call arg threads (p, none) r e = absurd (ground arith)
dispatch_new-Turns write_ok rpc_call arg threads (p, some item) r e =
    give_call-Turns write_ok rpc_call arg item threads p r true e

-- On a pool that has been started.
pub dispatch_rpc_call_started :
    (malloc : Option ℕ) (write_ok : Bool) (rpc_call arg : ℕ) (p : LibevThreadPool)
    (threads : List LibevThread)
    → p.libev_threads ≡ some threads
    → dispatch_rpc_call malloc write_ok rpc_call arg p
      ≡ rq_item_new malloc p >>= dispatch_new write_ok rpc_call arg threads
unfolding dispatch_rpc_call
dispatch_rpc_call_started malloc write_ok rpc_call arg p threads e = rw e refl

pub dispatch_rpc_call-Turns :
    (malloc : Option ℕ) (write_ok : Bool) (rpc_call arg : ℕ) (p r : LibevThreadPool)
    → dispatch_rpc_call malloc write_ok rpc_call arg p ≡ ok (r, true)
    → Turns p r
unfolding dispatch_rpc_call
dispatch_rpc_call-Turns malloc write_ok rpc_call arg p r e = elim (Option-cases p.libev_threads) [
  | inl none_started ↦ absurd (ground (arith, none_started))
  | inr (threads, started) ↦
      let (got, new, given) =
        bind_ok (rq_item_new malloc p) (dispatch_new write_ok rpc_call arg threads) (r, true)
          (sym (dispatch_rpc_call_started malloc write_ok rpc_call arg p threads started) ∙ e) in
      let (current, number) = rq_item_new_keeps malloc p got new in
      let turns = dispatch_new-Turns write_ok rpc_call arg threads got r given in
      let same : next_thread got.0.current_thread % got.0.num_threads
          ≡ next_thread p.current_thread % p.num_threads =
        rw (current, number) in
      (turns.0 ∙ ap pos same, turns.1 ∙ number, λ z. turns.2 (number ∙ z))
]

thread_index_unknown :
    (thread_id i : ℕ) (ts : List LibevThread)
    → All (λ (u : LibevThread). u.thread_id ≢ thread_id) ts
    → thread_index thread_id i ts ≡ 0
unfolding thread_index
thread_index_unknown thread_id i [] h = refl
thread_index_unknown thread_id i (t ∷ ts) h =
    let other : (t.thread_id == thread_id) ≡ false = ground (arith, h.0) in
    rw other (thread_index_unknown thread_id (i + 1) ts h.1)

-- From a pool that has had no call on, the k-th call that is accepted goes to the thread of the
-- index k - 1 modulo the number of threads.
pub Dispatched-turn :
    {k : ℕ} {p q : LibevThreadPool}
    → Dispatched (suc k) p q
    → p.current_thread ≡ negsuc 0
    → (q.current_thread ≡ pos (k % p.num_threads)) × (q.num_threads ≡ p.num_threads)
Dispatched-turn (one_more malloc write_ok rpc_call arg r (nothing p) e) fresh =
    let turns = dispatch_rpc_call-Turns malloc write_ok rpc_call arg p r e in
    (turns.0 ∙ ap (λ z. pos (next_thread z % p.num_threads)) fresh, turns.1)
Dispatched-turn {k = suc k} {p}
      (one_more malloc write_ok rpc_call arg r (one_more m w c a q d e0) e) fresh =
    let turns = dispatch_rpc_call-Turns malloc write_ok rpc_call arg q r e in
    let (current, number) = Dispatched-turn (one_more m w c a q d e0) fresh in
    let same : next_thread q.current_thread % q.num_threads ≡ suc k % p.num_threads =
      rw (current, number)
        (mod-add-mod k p.num_threads 1 ∙ ap (λ n. n % p.num_threads) (omega arith)) in
    (turns.0 ∙ ap pos same, turns.1 ∙ number)

-- A thread id that no thread of the pool has is cancelled all the same, when the version of the
-- first thread is not above the given one, and the first thread of the pool is replaced.
pub restart_thread_unknown :
    (new_id thread_id version : ℕ) (t : LibevThread) (ts : List LibevThread) (p : LibevThreadPool)
    → p.libev_threads ≡ some (t ∷ ts)
    → All (λ (u : LibevThread). u.thread_id ≢ thread_id) (t ∷ ts)
    → t.running_version ≤ version
    → restart_thread new_id thread_id version p
      ≡ ok
          (some thread_id, record p { libev_threads = some (record t { thread_id = new_id } ∷ ts) })
unfolding restart_thread
restart_thread_unknown new_id thread_id version t ts p e none_has old =
    let first : thread_index thread_id 0 (t ∷ ts) ≡ 0 =
      thread_index_unknown thread_id 0 (t ∷ ts) none_has in
    let kept : ltb version t.running_version ≡ false = ground arith in rw (e, first, kept)
