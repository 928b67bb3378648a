-- ===== src/RpcServer/Threads.antt =====
-- The threads of RpcServer in src/rpc_server/rpc_server.cpp: Initialize, Start and Wait.
use libevrpc.Base.{Bool, true, Option, none, some, List, [], ◌++◌, ℕ, if◌then◌else◌}
use libevrpc.Base.Int.{ℤ}
use libevrpc.Base.Fault.{Run, ok, ◌>>=◌}
use libevrpc.Util.Thread as Thread
use libevrpc.DispatchThread.{initialize_service}
use libevrpc.LibevThreadPool.{LibevThreadPool}
use libevrpc.LibevThreadPool.Life.{wait_pool}
use libevrpc.RpcServer.{RpcServer}
use libevrpc.RpcServer.Workers.{Config, start}

-- The descriptor that the dispatcher watches is none when its InitializeService has failed.
pub record ServerThreads : Type 0 where
  pub dispatcher : Option Thread.Thread
  pub watched : Option ℤ
  pub center_cluster_heartbeat : Option Thread.Thread
  pub connection_timer : Thread.Thread
  pub connection_timer_open : Bool

-- A server as it is constructed, with timer_open of the configuration.
unfoldable pub initialize : Bool → Bool → ServerThreads
initialize created timer_open = record {
  dispatcher = none;
  watched = none;
  center_cluster_heartbeat = none;
  connection_timer = if timer_open then (Thread.start created Thread.fresh).0 else Thread.fresh;
  connection_timer_open = timer_open;
}

-- Start, with the results of TcpListen, ev_loop_new and pthread_create. The result of
-- InitializeService is ignored; without p2c_mode the heartbeat is what it was.
unfoldable pub start_server :
    ℤ
    → Bool
    → Bool
    → Bool
    → (ℤ → LibevThreadPool)
    → Config
    → RpcServer × ServerThreads
    → RpcServer × ServerThreads
start_server listenfd loop_ok created p2c_mode make config (s, t) = (
  start make config s,
  record t {
    dispatcher = some ((Thread.start created Thread.fresh).0);
    watched = (initialize_service listenfd loop_ok).0;
    center_cluster_heartbeat =
        if p2c_mode
        then some ((Thread.start created Thread.fresh).0)
        else t.center_cluster_heartbeat;
  },
)

abbrev wait_thread : Bool → Option Thread.Thread → Option Thread.Thread
wait_thread joined none = none
wait_thread joined (some t) = some ((Thread.wait joined t).0)

-- The ids of the threads of a pool that are joined.
abbrev wait_optional : Option LibevThreadPool → Run (List ℕ)
wait_optional none = ok []
wait_optional (some pool) = wait_pool pool

-- Wait: the threads of the pools that are joined, in this order, and the other threads.
unfoldable pub wait_server : Bool → RpcServer × ServerThreads → Run (List ℕ × ServerThreads × Bool)
wait_server joined (s, t) = do
  workers ← wait_optional s.worker_threads
  readers ← wait_optional s.reader_threads
  writers ← wait_optional s.writer_threads
  ok (
    workers ++ readers ++ writers,
    record t {
      dispatcher = wait_thread joined t.dispatcher;
      center_cluster_heartbeat = wait_thread joined t.center_cluster_heartbeat;
    },
    true,
  )
