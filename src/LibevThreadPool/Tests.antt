-- ===== src/LibevThreadPool/Tests.antt =====
-- Small pools, src/rpc_server/libev_thread_pool.cpp.
use mathlib.Core.Path.{subst}
use libevrpc.Base.{
  zero, suc, map, ℕ, ◌≡◌, refl, true, Option, none, some, List, [], ◌∷◌, ◌==◌, if◌then◌else◌, arith,
}
use libevrpc.Base.Int.{negsuc}
use libevrpc.Base.Fault.{ok}
use libevrpc.LibevThreadPool.Fifos.Ops.{
  Working, Op, calls, notified, returns, drops, restarts, end_running, drop_running, step, run_pool,
}
use libevrpc.LibevThreadPool.Fifos.{Fifos, accepts, begins, ends, cancels, idle}
use libevrpc.LibevThreadPool.Fifos.Layout.{Owners, Queued}
use libevrpc.LibevThreadPool.Fifos.Represents.{Represents, Each}
use libevrpc.LibevThreadPool.Fifos.Refines.{Follows, run_pool-Follows}
use libevrpc.LibevThreadPool.{
  rq_item_new, rq_item_free, begin_call, end_call, restart_thread, RequestQueueItem, Heap,
  RequestQueue, LibevThread, LibevThreadPool, rq_item_push, rq_item_pop, dispatch_rpc_call,
}
use libevrpc.LibevThreadPool.Life.{serve, retrieve_data}
use libevrpc.LibevThreadPool.Queue.{Holds}
use libevrpc.LibevThreadPool.Drain.{call_of, calls_at, told_to_end, serve_drains}

abbrev item_of : Option ℕ → RequestQueueItem
item_of n = record { processor = 70; param = 80; next = n }

-- The item 5 is queued, the item 8 is free.
abbrev heap : Heap
heap a = item_of none

abbrev queue : RequestQueue
queue = record { head = some 5; tail = some 5 }

abbrev thread : LibevThread
thread = record { thread_id = 11; running_version = 3; new_request_queue = queue; notified = [] }

abbrev pool : LibevThreadPool
pool = record {
  current_thread = negsuc 0;
  num_threads = 1;
  libev_threads = some (thread ∷ []);
  rqi_freelist = some 8;
  heap = heap;
}

abbrev queued : List ℕ
queued = 5 ∷ []

queue-Holds : Holds heap queue queued
queue-Holds = ((refl, refl), refl, (tt, tt))

serve_drains_example :
    (items : List RequestQueueItem) × (p' : LibevThreadPool) × (serve 0 (told_to_end 1) pool
      ≡ ok (items, p', true))
    × (map call_of items ≡ calls_at heap queued)
serve_drains_example = serve_drains 0 pool (thread ∷ []) thread (5 ∷ []) refl refl queue-Holds

-- The item 5 is in the queue of the thread 0, the item 8 on the free list.
abbrev owners : Owners
owners a = if a == 5 then 3 else if a == 8 then 1 else 0

abbrev fifos : Fifos
fifos = record (idle 1) { jobs = λ i. if i == 0 then (70, 80) ∷ [] else [] }

abbrev working : Working
working = record { pool = pool; running = λ item. none }

Each-Queued : Each heap owners (thread ∷ []) fifos.jobs
Each-Queued zero t e =
    let same : thread ≡ t = ground arith in
    subst (λ (u : LibevThread). Queued heap owners 3 u.new_request_queue ((70, 80) ∷ [])) same
      (queued, queue-Holds, (refl, tt), refl)
Each-Queued (suc i) t e = absurd (ground arith)

working-Represents : Represents owners pool working.running fifos
working-Represents = record {
  threads = thread ∷ [];
  started = refl;
  counted = refl;
  number = refl;
  turn = refl;
  each = Each-Queued;
  spare = (8 ∷ [], (refl, refl), (refl, tt), (tt, tt));
  busy = λ a. refl;
}

-- A second call is queued; the thread is restarted in the first one and cancelled; the new thread
-- runs the second call.
abbrev ops : List Op
ops = calls none true 71 81 ∷ notified 0 ∷ restarts 30 11 3 ∷ drops 5 ∷ notified 0 ∷ returns 8 ∷ []

run_pool-Follows_example : Follows fifos (run_pool ops working)
run_pool-Follows_example =
    run_pool-Follows ops owners working fifos (λ e. omega (arith, e))
      (tt, (omega arith, (tt, (tt, (omega arith, (tt, tt)))))) working-Represents

ops_events :
    (run_pool ops working).0
    ≡ accepts (71, 81)
      ∷ begins 0 (70, 80)
      ∷ cancels 0 (70, 80)
      ∷ begins 0 (71, 81)
      ∷ ends 0 (71, 81)
      ∷ []
unfolding run_pool step end_running drop_running dispatch_rpc_call rq_item_new begin_call end_call
    restart_thread retrieve_data rq_item_push rq_item_pop rq_item_free
ops_events = refl
