-- ===== src/LibevThreadPool.antt =====
-- src/rpc_server/libev_thread_pool.{h,cpp}: the request queues and the free list in memory, the
-- dispatch of calls, the restart of a thread, and what a thread does on a notification. Guarded
-- blocks are single steps. Memory is a function from addresses to items; malloc() is an argument.
pub mod Life
pub mod Queue
pub mod Free
pub mod Spread
pub mod Drain
pub mod Refused
pub mod Fifos
mod Tests
use libevrpc.Base.{
  ℕ, zero, suc, ◌+◌, ◌-◌, ◌%◌, Bool, true, false, Option, none, some, List, [], ◌∷◌, ◌++◌, ◌==◌,
  if◌then◌else◌, ltb, get_elem?, set, map,
}
use libevrpc.Base.Int.{ℤ, pos, negsuc}
use libevrpc.Base.Fault.{Run, ok, fault, ◌>>=◌, deref}

-- RQ_ITEM: `processor` and `param` are addresses of code and data.
pub record RequestQueueItem : Type 0 where
  pub processor : ℕ
  pub param : ℕ
  pub next : Option ℕ

abbrev pub Heap : Type 0
Heap = ℕ → RequestQueueItem

abbrev pub write : ℕ → RequestQueueItem → Heap → Heap
write a item h b = if a == b then item else h b

abbrev pub set_next : ℕ → Option ℕ → Heap → Heap
set_next a n h = write a (record (h a) { next = n }) h

pub record RequestQueue : Type 0 where
  pub head : Option ℕ
  pub tail : Option ℕ

unfoldable pub rq_item_push : ℕ → Heap → RequestQueue → Heap × RequestQueue
rq_item_push item h q =
    let h1 = set_next item none h in
    elim q.tail [
      | none ↦ (h1, record { head = some item; tail = some item })
      | some t ↦ (set_next t (some item) h1, record q { tail = some item })
    ]

unfoldable pub rq_item_pop : Heap → RequestQueue → Option ℕ × RequestQueue
rq_item_pop h q = elim q.head [
  | none ↦ (none, q)
  | some item ↦ (
    some item,
    record { head = (h item).next; tail = elim (h item).next [ none ↦ none | some n ↦ q.tail ] },
  )
]

-- The threads, with what is written to their pipes and not read yet.
pub record LibevThread : Type 0 where
  pub thread_id : ℕ
  pub running_version : ℕ
  pub new_request_queue : RequestQueue
  pub notified : List ℕ

-- `current_thread` is -1 before the first call.
pub record LibevThreadPool : Type 0 where
  pub current_thread : ℤ
  pub num_threads : ℕ
  pub libev_threads : Option (List LibevThread)
  pub rqi_freelist : Option ℕ
  pub heap : Heap

abbrev pub item_per_alloc : ℕ
item_per_alloc = 64

-- `rq_item[i - 1].next = &rq_item[i]` for the n rounds that are left. The round of i = 0 writes in
-- front of the block at `base`, which is undefined.
pub link_items : ℕ → ℕ → ℕ → Heap → Run Heap
link_items zero i base h = ok h
link_items (suc n) i base h =
    let rest = link_items n (i + 1) base (set_next (base + i - 1) (some (base + i)) h) in
    if i == 0 then fault else rest

-- The block at `base` is linked, and all its items but the first go to the free list.
link_block : ℕ → LibevThreadPool → Run (LibevThreadPool × Option ℕ)
unfolding link_items
link_block base p = do
  linked ← link_items item_per_alloc 0 base p.heap
  let last = base + (item_per_alloc - 1)
  ok (
    record p {
      heap = set_next last p.rqi_freelist (set_next last none linked);
      rqi_freelist = some (base + 1);
    },
    some base,
  )

-- malloc() gives a block of 64 items, or fails.
unfoldable pub rq_item_new : Option ℕ → LibevThreadPool → Run (LibevThreadPool × Option ℕ)
unfolding link_block
rq_item_new malloc p = elim p.rqi_freelist [
  | some item ↦ ok (record p { rqi_freelist = (p.heap item).next }, some item)
  | none ↦ elim malloc [ none ↦ ok (p, none) | some base ↦ link_block base p ]
]

unfoldable pub rq_item_free : ℕ → LibevThreadPool → LibevThreadPool
rq_item_free item p = record p {
  heap = set_next item p.rqi_freelist p.heap;
  rqi_freelist = some item;
}

-- current_thread_ + 1
abbrev pub next_thread : ℤ → ℕ
next_thread (pos n) = n + 1
next_thread (negsuc n) = 0

abbrev pub write_call : ℕ → ℕ → ℕ → Heap → Heap
write_call item rpc_call arg h =
    write item (record (h item) { processor = rpc_call; param = arg }) h

-- The item goes to the thread that is next in turn; a pool of 0 threads divides by 0.
give_call : Bool → ℕ → ℕ → ℕ → List LibevThread → LibevThreadPool → Run (LibevThreadPool × Bool)
give_call write_ok rpc_call arg item threads p = if p.num_threads == 0 then fault else (do
  let cur_tid = next_thread p.current_thread % p.num_threads
  cur_thread ← deref (get_elem? threads cur_tid)
  let pushed = rq_item_push item (write_call item rpc_call arg p.heap) cur_thread.new_request_queue
  let cur : LibevThread = record cur_thread {
    new_request_queue = pushed.1;
    notified = if write_ok then cur_thread.notified ++ b'c' ∷ [] else cur_thread.notified;
  }
  ok (
    record p {
      current_thread = pos cur_tid;
      libev_threads = some (set threads cur_tid cur);
      heap = pushed.0;
    },
    true,
  ))

-- With the item that RQItemNew gives, if it gives one.
pub dispatch_new :
    Bool → ℕ → ℕ → List LibevThread → LibevThreadPool × Option ℕ → Run (LibevThreadPool × Bool)
unfolding give_call
dispatch_new write_ok rpc_call arg threads (p, none) = ok (p, false)
dispatch_new write_ok rpc_call arg threads (p, some item) =
    give_call write_ok rpc_call arg item threads p

unfoldable pub dispatch_rpc_call :
    Option ℕ → Bool → ℕ → ℕ → LibevThreadPool → Run (LibevThreadPool × Bool)
unfolding dispatch_new
dispatch_rpc_call malloc write_ok rpc_call arg p = elim p.libev_threads [
  | none ↦ ok (p, false)
  | some threads ↦ (do got ← rq_item_new malloc p; dispatch_new write_ok rpc_call arg threads got)
]

-- The thread at `index` reads a `c` and takes an item off its queue: the item, and the pool while
-- the call of the item runs.
unfoldable pub begin_call : ℕ → LibevThreadPool → Run (ℕ × LibevThreadPool)
begin_call index p = do
  threads ← deref p.libev_threads
  me ← deref (get_elem? threads index)
  let popped = rq_item_pop p.heap me.new_request_queue
  item ← deref popped.0
  ok (
    item,
    record p {
      libev_threads = some (set threads index (record me { new_request_queue = popped.1 }));
    },
  )

-- The call of an item has returned to the thread at `index`.
unfoldable pub end_call : ℕ → ℕ → LibevThreadPool → Run LibevThreadPool
end_call index item p = do
  threads ← deref p.libev_threads
  me ← deref (get_elem? threads index)
  let after : LibevThread = record me { running_version = me.running_version + 1 }
  ok (rq_item_free item (record p { libev_threads = some (set threads index after) }))

-- A `c` where nothing else happens to the pool while the call runs: the item with the call, and
-- the pool afterwards. Fifos has what happens in between.
unfoldable pub libev_processor : ℕ → LibevThreadPool → Run (RequestQueueItem × LibevThreadPool)
libev_processor index p = do
  begun ← begin_call index p
  after ← end_call index begun.0 begun.1
  ok (p.heap begun.0, after)

-- The index of a thread, 0 if there is none.
thread_index : ℕ → ℕ → List LibevThread → ℕ
thread_index thread_id i [] = 0
thread_index thread_id i (t ∷ ts) =
    let later = thread_index thread_id (i + 1) ts in if t.thread_id == thread_id then i else later

-- The thread that is cancelled, and the pool with the id of the thread that replaces it.
unfoldable pub restart_thread : ℕ → ℕ → ℕ → LibevThreadPool → Run (Option ℕ × LibevThreadPool)
unfolding thread_index
restart_thread new_id thread_id running_version p = do
  threads ← deref p.libev_threads
  let index = thread_index thread_id 0 threads
  cur_thread ← deref (get_elem? threads index)
  ok (
      if ltb running_version cur_thread.running_version then (none, p) else (
        some thread_id,
        record p {
          libev_threads = some (set threads index (record cur_thread { thread_id = new_id }));
        },
      ))
