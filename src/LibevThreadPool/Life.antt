-- ===== src/LibevThreadPool/Life.antt =====
-- The threads of a pool from Start to the end, src/rpc_server/libev_thread_pool.cpp.
use libevrpc.Base.{
  ℕ, zero, suc, ◌+◌, Bool, true, false, Option, none, some, List, [], ◌∷◌, ◌++◌, ◌==◌,
  if◌then◌else◌, map,
}
use libevrpc.Base.Int.{ℤ, pos, negsuc}
use libevrpc.Base.Fault.{Run, ok, ◌>>=◌, deref}
use libevrpc.LibevThreadPool.{
  RequestQueueItem, Heap, LibevThread, LibevThreadPool, rq_item_free, libev_processor,
}

-- A pool as it is constructed.
abbrev pub new_pool : Heap → LibevThreadPool
new_pool h = record {
  current_thread = negsuc 0;
  num_threads = 10;
  libev_threads = none;
  rqi_freelist = none;
  heap = h;
}

-- The threads from the index i on, with the ids that pthread_create gives.
unfoldable pub new_threads : (ℕ → ℕ) → ℕ → ℕ → List LibevThread
new_threads ids i zero = []
new_threads ids i (suc n) =
    record {
      thread_id = ids i;
      running_version = 0;
      new_request_queue = record { head = none; tail = none };
      notified = [];
    }
    ∷ new_threads ids (i + 1) n

-- LibevThreadInitialization, which Start calls; calloc() gives no memory for a negative number of
-- threads. A failed pipe() or ev_loop_new() ends the program.
unfoldable pub start : Bool → (ℕ → ℕ) → ℤ → LibevThreadPool → LibevThreadPool × Bool
unfolding new_threads
start calloc_ok ids (negsuc n) p =
    (record p { num_threads = 0; libev_threads = none; rqi_freelist = none }, false)
start calloc_ok ids (pos n) p =
    let p' = record p { num_threads = n; rqi_freelist = none } in
    if calloc_ok
    then (record p' { libev_threads = some (new_threads ids 0 n) }, true)
    else (record p' { libev_threads = none }, false)

-- A thread that reads these bytes from its pipe: the calls that it runs, the pool afterwards, and
-- whether it has left its event loop. Any other byte is ignored.
unfoldable pub serve :
    ℕ → List ℕ → LibevThreadPool → Run (List RequestQueueItem × LibevThreadPool × Bool)
serve index [] p = ok ([], p, false)
serve index (b ∷ bs) p =
    let run : Run (List RequestQueueItem × LibevThreadPool × Bool) = (do
      done ← libev_processor index p
      later ← serve index bs (done.1)
      ok (done.0 ∷ later.0, later.1, later.2)) in
    let next = serve index bs p in
    if b == b'c' then run else if b == b'q' then ok ([], p, true) else next

-- `write` of a `q` to the pipe of each thread that is left.
unfoldable pub notify_all : Bool → List LibevThread → List LibevThread
notify_all write_ok [] = []
notify_all write_ok (t ∷ ts) =
    let rest = notify_all write_ok ts in
    (if write_ok then record t { notified = t.notified ++ b'q' ∷ [] } else t) ∷ rest

-- The part of Destroy before Wait; a pool that has not been started has threads to notify, and no
-- memory for them. The loop over the free list at its end runs for no item.
unfoldable pub destroy : Bool → LibevThreadPool → Run LibevThreadPool
unfolding notify_all
destroy write_ok p = if p.num_threads == 0 then ok p else (do
  threads ← deref p.libev_threads
  ok (record p { libev_threads = some (notify_all write_ok threads) }))

-- Wait: the threads that are joined, in order.
unfoldable pub wait_pool : LibevThreadPool → Run (List ℕ)
wait_pool p =
    if p.num_threads == 0
    then ok []
    else (do threads ← deref p.libev_threads; ok (map (λ t. t.thread_id) threads))

-- RetrieveDataAction, the cleanup of a thread that is cancelled in a call.
unfoldable pub retrieve_data : Option ℕ → LibevThreadPool → LibevThreadPool
retrieve_data none p = p
retrieve_data (some item) p = rq_item_free item p
