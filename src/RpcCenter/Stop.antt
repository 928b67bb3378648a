-- ===== src/RpcCenter/Stop.antt =====
-- StopCenter and WaitCenter of src/rpc_center/rpc_center.cpp, StopThread of the election and the leader
-- thread, and StartReporter of src/rpc_center/reporter_thread.cpp. The thread of the center server, of
-- which RpcCenter keeps only the pointer, is a state of its own here.
use libevrpc.Base.{Bool, true, false, Option, none, some, List, [], ◌∷◌, if◌then◌else◌}
use libevrpc.Base.Int.{ℤ}
use libevrpc.Base.Bytes.{Bytes}
use libevrpc.Util.Thread.{Thread, fresh, start, stop, wait}
use libevrpc.RpcCenter.{MessageThread, RpcCenter}

abbrev stop_some : Bool → Option Thread → Option Thread
stop_some cancelled none = none
stop_some cancelled (some t) = some ((stop cancelled t).0)

abbrev wait_some : Bool → Option Thread → Option Thread
wait_some joined none = none
wait_some joined (some t) = some ((wait joined t).0)

abbrev on_message_thread : (Thread → Thread) → Option MessageThread → Option MessageThread
on_message_thread f none = none
on_message_thread f (some t) = some (record t { thread = f t.thread })

-- The election thread, the reporter thread and the center server thread are stopped.
unfoldable pub stop_center : Bool → Option Thread → RpcCenter → Option Thread × RpcCenter
stop_center cancelled server c = (
  stop_some cancelled server,
  record c {
    election_thread = on_message_thread (λ t. (stop cancelled t).0) c.election_thread;
    reporter_thread = stop_some cancelled c.reporter_thread;
  },
)

unfoldable pub wait_center : Bool → Option Thread → RpcCenter → Option Thread × RpcCenter
wait_center joined server c = (
  wait_some joined server,
  record c {
    election_thread = on_message_thread (λ t. (wait joined t).0) c.election_thread;
    reporter_thread = wait_some joined c.reporter_thread;
    leader_thread = on_message_thread (λ t. (wait joined t).0) c.leader_thread;
  },
)

-- StopThread of ElectionThread and of LeaderThread.
unfoldable pub stop_election_thread : MessageThread → MessageThread
stop_election_thread t = record t { running = false }

unfoldable pub stop_leader_thread : MessageThread → MessageThread
stop_leader_thread t = record t { running = false }

-- The addresses are blocks that StartReporter allocates and does not fill.
pub record ReporterThread : Type 0 where
  pub thread : Thread
  pub reporter_running : Bool
  pub leader_addr : Option Bytes
  pub leader_port : Option Bytes
  pub conn_fd : ℤ

abbrev new_reporter : ℤ → ReporterThread
new_reporter garbage = record {
  thread = fresh;
  reporter_running = false;
  leader_addr = none;
  leader_port = none;
  conn_fd = garbage;
}

-- `addr_memory` and `port_memory`: what lies in the blocks that malloc() gives. The second result
-- lists the close() calls.
unfoldable pub start_reporter :
    Bool → Bool → Bytes → Bytes → ReporterThread → ReporterThread × List ℤ
start_reporter created cancelled addr_memory port_memory r =
    let stopped : Thread = if r.reporter_running then (stop cancelled r.thread).0 else r.thread in
    (
      record r {
        thread = (start created stopped).0;
        reporter_running = true;
        leader_addr = some addr_memory;
        leader_port = some port_memory;
      },
      if r.reporter_running then r.conn_fd ∷ [] else [],
    )
