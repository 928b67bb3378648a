-- ===== src/LibevThreadPool/Fifos/Ops.antt =====
-- Sequences of operations of the worker pool, src/rpc_server/libev_thread_pool.cpp. A call of a
-- thread begins and ends in steps of their own, and anything may happen in between.
use libevrpc.Base.{ℕ, ◌<◌, Bool, Option, none, some, List, [], ◌∷◌, ◌++◌, if◌then◌else◌}
use libevrpc.Base.Fault.{Run, ok, fault, ◌>>=◌}
use libevrpc.LibevThreadPool.{
  LibevThreadPool, dispatch_rpc_call, begin_call, end_call, restart_thread,
}
use libevrpc.LibevThreadPool.Life.{retrieve_data}
use libevrpc.LibevThreadPool.Drain.{call_of}
use libevrpc.LibevThreadPool.Fifos.{Event, accepts, refuses, begins, ends, cancels}
use libevrpc.LibevThreadPool.Fifos.Running.{set_running}

-- A pool, and for each item the index of the thread whose call it is, while that runs.
pub record Working : Type 0 where
  pub pool : LibevThreadPool
  pub running : ℕ → Option ℕ

-- What happens to a pool: DispatchRpcCall with what malloc() gives; the thread at an index takes an
-- item off its queue; the call of an item returns, or its thread is cancelled in it; and
-- RestartThread.
pub data Op : Type 0 where
  calls : Option ℕ → Bool → ℕ → ℕ → Op
  notified returns drops : ℕ → Op
  restarts : ℕ → ℕ → ℕ → Op

-- The end of a call that does not run is no step.
unfoldable pub end_running : Option ℕ → ℕ → Working → Run (List Event × Working)
end_running none item w = ok ([], w)
end_running (some i) item w = do
  pool ← end_call i item w.pool
  ok (
    ends i (call_of (w.pool.heap item)) ∷ [],
    record { pool = pool; running = set_running item none w.running },
  )

unfoldable pub drop_running : Option ℕ → ℕ → Working → Run (List Event × Working)
drop_running none item w = ok ([], w)
drop_running (some i) item w = ok (
  cancels i (call_of (w.pool.heap item)) ∷ [],
  record { pool = retrieve_data (some item) w.pool; running = set_running item none w.running },
)

unfoldable pub step : Op → Working → Run (List Event × Working)
unfolding end_running drop_running
step (calls malloc write_ok rpc_call arg) w = do
  done ← dispatch_rpc_call malloc write_ok rpc_call arg w.pool
  ok (
    (if done.1 then accepts (rpc_call, arg) else refuses (rpc_call, arg)) ∷ [],
    record w { pool = done.0 },
  )
step (notified i) w = do
  begun ← begin_call i w.pool
  ok (
    begins i (call_of (w.pool.heap begun.0)) ∷ [],
    record { pool = begun.1; running = set_running begun.0 (some i) w.running },
  )
step (returns item) w = end_running (w.running item) item w
step (drops item) w = drop_running (w.running item) item w
step (restarts new_id thread_id version) w = do
  done ← restart_thread new_id thread_id version w.pool
  ok ([], record w { pool = done.1 })

-- The pool after all operations, or the operation that met undefined behaviour, and the pool that
-- it met.
pub data Outcome : Type 0 where
  done : Working → Outcome
  faulted : Op → Working → Outcome

unfoldable pub run_pool : List Op → Working → List Event × Outcome
unfolding step
run_pool [] w = ([], done w)
run_pool (op ∷ ops) w = elim (step op w) [
  | ok (es, w') ↦ let (later, last) = run_pool ops w' in (es ++ later, last)
  | fault ↦ ([], faulted op w)
]

-- Only threads of the pool, which has n of them, are notified.
abbrev pub OfPool : ℕ → Op → Type 0
OfPool n (calls malloc write_ok rpc_call arg) = Unit
OfPool n (notified i) = i < n
OfPool n (returns item) = Unit
OfPool n (drops item) = Unit
OfPool n (restarts new_id thread_id version) = Unit
