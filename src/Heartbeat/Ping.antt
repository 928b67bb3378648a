-- ===== src/Heartbeat/Ping.antt =====
-- The heartbeats over UDP: src/rpc_client/rpc_heartbeat_client.cpp and
-- src/rpc_server/rpc_heartbeat_server.cpp. Sleeping is left out, and so are the copies of the
-- addresses, which go into blocks that are one byte too small.
pub mod Refresh
use libevrpc.Base.{ℕ, Bool, true, false, Option, none, some, List, [], ◌∷◌, ◌++◌, if◌then◌else◌}
use libevrpc.Base.Int.{ℤ, pos, negsuc, is_neg}
use libevrpc.Base.Bytes.{Bytes}
use libevrpc.Base.Fault.{Run, ok, fault}
use libevrpc.Communication.{
  Sent, rpc_send_to, RecvResult, RecvRun, returned, waiting, overrun, rpc_recv_from,
}
use libevrpc.Communication.Connect.{UdpAddress, udp_server_init, udp_client_init}
use libevrpc.ConnectionTimerManager.{ConnectionTimerManager, insert_refresh_connection_info}

pub record RpcHeartbeatClient : Type 0 where
  pub hb_server_addr : Option Bytes
  pub hb_server_port : Option Bytes
  pub running : Bool
  pub timeout : ℤ
  pub connect_fd : ℤ

-- The constructor takes both or none; the descriptor is not set.
unfoldable pub new_heartbeat_client : ℤ → Option Bytes → Option Bytes → ℤ → RpcHeartbeatClient
new_heartbeat_client garbage (some addr) (some port) timeout = record {
  hb_server_addr = some addr;
  hb_server_port = some port;
  running = true;
  timeout = timeout;
  connect_fd = garbage;
}
new_heartbeat_client garbage addr port timeout = record {
  hb_server_addr = none;
  hb_server_port = none;
  running = true;
  timeout = timeout;
  connect_fd = garbage;
}

-- `socket` and `host`: what socket() gives, and the address as a number.
connected : ℤ × Option UdpAddress → RpcHeartbeatClient → RpcHeartbeatClient × Bool
connected (fd, to) c =
    let c' = record c { connect_fd = fd } in if is_neg fd then (c', false) else (c', true)

unfoldable pub create_rpc_connection : ℤ → ℕ → RpcHeartbeatClient → RpcHeartbeatClient × Bool
unfolding connected
create_rpc_connection socket host c = elim c.hb_server_addr [
  | none ↦ (c, false)
  | some a ↦ elim c.hb_server_port [
    | none ↦ (c, false)
    | some p ↦ connected (udp_client_init socket host) c
  ]
]

-- What the rounds of Run send, each with what its sendto() calls do.
ping_rounds : Bytes → List (ℕ → Bool) → List Sent
ping_rounds ping [] = []
ping_rounds ping (works ∷ rounds) = rpc_send_to works ping false ∷ ping_rounds ping rounds

-- Run: nothing where CreateRpcConnection fails; `running_` stays true.
unfoldable pub heartbeat_run :
    ℤ → ℕ → Bytes → List (ℕ → Bool) → RpcHeartbeatClient → RpcHeartbeatClient × List Sent
unfolding ping_rounds
heartbeat_run socket host local_addr rounds c =
    let (c', created) = create_rpc_connection socket host c in
    if created then (c', ping_rounds local_addr rounds) else (c', [])

-- InitHeartbeatServer: the descriptor that is watched, if it succeeds.
unfoldable pub init_heartbeat_server : ℤ → (UdpAddress → Bool) → ℕ → Option ℤ
init_heartbeat_server socket bind_ok host =
    let fd = udp_server_init socket bind_ok host in if is_neg fd then none else some fd

-- Run of the server: the descriptor that its event loop serves. It returns where the initialisation
-- has succeeded, and reads a loop that was never made where it has failed; `loop_null` tells whether
-- the memory of the pointer is NULL.
unfoldable pub heartbeat_server_run : ℤ → (UdpAddress → Bool) → ℕ → Bool → Run (Option ℤ)
heartbeat_server_run socket bind_ok host loop_null =
    elim (init_heartbeat_server socket bind_ok host) [
      | some fd ↦ ok none
      | none ↦ if loop_null then ok none else fault
    ]

refresh : RecvRun → ConnectionTimerManager → Run (Option ConnectionTimerManager)
refresh (returned id client_addr c) m = ok (some (insert_refresh_connection_info client_addr m))
refresh (waiting text) m = ok none
refresh overrun m = fault

-- HeartBeatProcessor, with what makes it return at once; none while RpcRecvFrom waits. An error of
-- RpcRecvFrom does not keep the text from being inserted.
unfoldable pub heart_beat_processor :
    Bool → Bool → List RecvResult → ConnectionTimerManager → Run (Option ConnectionTimerManager)
unfolding refresh
heart_beat_processor loop_null ev_error recv m =
    if loop_null
    then ok (some m)
    else if ev_error
    then ok (some m)
    else refresh (rpc_recv_from recv [] false) m
