-- ===== src/RpcServer/Workers.antt =====
-- What the threads of the pools of src/rpc_server/rpc_server.cpp run, RpcReader, RpcWriter and the
-- item of a worker, and the pools of Start and RestartWorkerThread.
use libevrpc.Base.{ℕ, Bool, true, false, Option, none, some, [], ◌==◌, if◌then◌else◌}
use libevrpc.Base.Int.{ℤ, pos, eq_ℤ}
use libevrpc.Base.Bytes.{Bytes, nat_key}
use libevrpc.Base.HashMap.{find, put}
use libevrpc.Base.Fault.{Run, ok, fault, ◌>>=◌, deref}
use libevrpc.Communication.{rpc_send, rpc_recv}
use libevrpc.LibevThreadPool.{
  LibevThreadPool, RequestQueueItem, dispatch_rpc_call, begin_call, end_call, restart_thread,
}
use libevrpc.RpcServer.{
  CallBackParams, RpcServer, Env, processor_address, writer_address, add_effects, delete_params,
  received, sent_effects, rpc_processor,
}

read_call : Env → ℕ → CallBackParams → RpcServer → Option (ℤ × Bytes) → Run (RpcServer × Bool)
read_call env arg cb s none = ok (s, false)
read_call env arg cb s (some (id, text)) = do
  let cb' : CallBackParams = record cb { call_id = some id; recv_info = text }
  workers ← deref s.worker_threads
  dispatched ← dispatch_rpc_call env.malloc env.write_ok processor_address arg workers
  ok (record s { worker_threads = some (dispatched.0); params = put arg cb' s.params }, true)

-- Without a server the parameters are deleted and then read.
unfoldable pub rpc_reader : Env → ℕ → RpcServer → Run (RpcServer × Bool)
unfolding read_call
rpc_reader env arg s = do
  cb ← deref (find arg s.params)
  call ←
      (if cb.has_server
        then received (rpc_recv (env.recv cb.event_fd) cb.recv_info false)
        else fault)
  read_call env arg cb s call

abbrev pub or_empty : Option Bytes → Bytes
or_empty none = []
or_empty (some text) = text

unfoldable pub rpc_writer : Env → ℕ → RpcServer → Run RpcServer
rpc_writer env arg s = do
  cb ← deref (find arg s.params)
  (if cb.has_server
      then (do
        response ← deref cb.response_ptr
        let response_str = or_empty (env.serialize response)
        ok (
            delete_params arg (
              add_effects
                (sent_effects cb.event_fd
                  (rpc_send (env.send cb.event_fd) (pos 0) response_str true))
                s)))
      else ok (delete_params arg s))

-- What a thread of the pool of workers calls for an item, by the address in it.
unfoldable pub run_item : Env → RequestQueueItem → RpcServer → Run (RpcServer × Bool)
run_item env item s =
    if item.processor == processor_address
    then rpc_processor env item.param s
    else if item.processor == writer_address
    then (do s' ← rpc_writer env item.param s; ok (s', true))
    else fault

-- The call of an item has returned to a worker, unless it waits for ever.
worker_done : ℕ → ℕ → RpcServer × Bool → Run (RpcServer × Bool)
worker_done index item (s, false) = ok (s, false)
worker_done index item (s, true) = do
  pool ← deref s.worker_threads
  after ← end_call index item pool
  ok (record s { worker_threads = some after }, true)

-- A worker that is notified: LibevProcessor with the call that it runs.
unfoldable pub run_worker : Env → ℕ → RpcServer → Run (RpcServer × Bool)
unfolding run_item worker_done
run_worker env index s = do
  pool ← deref s.worker_threads
  begun ← begin_call index pool
  ran ← run_item env (pool.heap begun.0) (record s { worker_threads = some begun.1 })
  worker_done index begun.0 ran

-- What Start reads of the configuration.
pub record Config : Type 0 where
  pub thread_num : ℤ
  pub reader_thread_num : ℤ
  pub writer_thread_num : ℤ

-- A pool of readers or writers is made for any number but 0.
abbrev pub optional_pool : (ℤ → LibevThreadPool) → ℤ → Option LibevThreadPool
optional_pool make n = if eq_ℤ n (pos 0) then none else some (make n)

-- The pools of Start. `make` gives a new pool that
-- has been started with a number of threads.
unfoldable pub start : (ℤ → LibevThreadPool) → Config → RpcServer → RpcServer
start make config s = record s {
  worker_threads = some (make config.thread_num);
  reader_threads = optional_pool make config.reader_thread_num;
  writer_threads = optional_pool make config.writer_thread_num;
}

-- RestartWorkerThread, with the id of the new thread.
unfoldable pub restart_worker_thread : ℕ → ℕ → ℕ → RpcServer → Run (RpcServer × Bool)
restart_worker_thread new_id thread_id running_version s = elim s.worker_threads [
  | none ↦ ok (s, false)
  | some pool ↦ (do
    restarted ← restart_thread new_id thread_id running_version pool
    ok (record s { worker_threads = some (restarted.1) }, true))
]
