-- ===== src/RpcClient.antt =====
-- src/rpc_client/rpc_client.{h,cpp}: the client as its users see it, with the channel, the
-- controller and the heartbeats that it owns. Threads has their threads.
pub mod Controller
pub mod Channel
pub mod Distributed
pub mod Threads
mod Tests
use libevrpc.Base.{ℕ, Bool, true, false, Option, none, some, List, [], ◌∷◌, if◌then◌else◌, not}
use libevrpc.Base.Int.{ℤ, pos}
use libevrpc.Base.Bytes.{Bytes}
use libevrpc.Base.Fault.{Run, ok, ◌>>=◌}
use libevrpc.Heartbeat.Client.{CenterClientHeartbeat, new_client_heartbeat}
use libevrpc.Heartbeat.Ping.{RpcHeartbeatClient, new_heartbeat_client}
use libevrpc.RpcClient.Controller.{RpcController, new_controller, is_failed, error_text}
use libevrpc.RpcClient.Channel.{
  Channel as ClientChannel, channel_to, distributed_channel, open_rpc_async_mode,
  set_connection_info, Exchange, Env, RpcCallParams,
}
use libevrpc.RpcClient.Channel.Pending.{Communicates, get_async_response}
use libevrpc.RpcClient.Channel.Call.{Called, call_method}

pub record RpcClient : Type 0 where
  pub rpc_channel : Option ClientChannel
  pub rpc_controller : Option RpcController
  pub rpc_heartbeat : Option RpcHeartbeatClient
  pub center_client_heartbeat : Option CenterClientHeartbeat

-- What InitClient reads of the configuration.
pub record Config : Type 0 where
  pub rpc_server_addr : Option Bytes
  pub rpc_server_port : Option Bytes
  pub hb_server_port : Option Bytes
  pub distributed_mode : Bool
  pub hb_open : Bool
  pub rpc_connection_timeout : ℤ

unfoldable pub set_rpc_connection_info : ℤ → ℤ → RpcClient → RpcClient × Bool
set_rpc_connection_info rpc_timeout try_time c = elim c.rpc_channel [
  | none ↦ (c, false)
  | some channel ↦
      (record c { rpc_channel = some (set_connection_info rpc_timeout try_time channel) }, true)
]

-- "127.0.0.1" and "9999".
abbrev pub local_addr : Bytes
local_addr = b'1' ∷ b'2' ∷ b'7' ∷ b'.' ∷ b'0' ∷ b'.' ∷ b'0' ∷ b'.' ∷ b'1' ∷ []

abbrev pub default_port : Bytes
default_port = b'9' ∷ b'9' ∷ b'9' ∷ b'9' ∷ []

-- The constructor for a single server leaves the pointer to the heartbeat as it was in memory.
single_channel : Option (List Bytes) → Option Bytes → Option Bytes → ClientChannel
single_channel garbage (some addr) (some port) = channel_to garbage addr port
single_channel garbage addr port = channel_to garbage local_addr default_port

or_null : Option Bytes → Bytes
or_null none = []
or_null (some port) = port

-- InitClient on a new object; `garbage` is what lies in the memory of a channel and of a heartbeat.
unfoldable pub init_client : Option (List Bytes) → ℤ → Config → RpcClient
unfolding single_channel or_null
init_client garbage garbage_fd config =
    let client : RpcClient = record {
      rpc_channel = some (
          if config.distributed_mode
          then distributed_channel [] (or_null config.rpc_server_port)
          else single_channel garbage config.rpc_server_addr config.rpc_server_port);
      rpc_controller = some new_controller;
      rpc_heartbeat =
          if config.hb_open
          then some (
              new_heartbeat_client garbage_fd config.rpc_server_addr config.hb_server_port
                config.rpc_connection_timeout)
          else none;
      center_client_heartbeat = if config.distributed_mode then some new_client_heartbeat else none;
    } in
    (set_rpc_connection_info (pos 1000) (pos 1) client).0

unfoldable pub is_call_ok : RpcClient → Bool
is_call_ok c = elim c.rpc_controller [ none ↦ true | some k ↦ not (is_failed k) ]

unfoldable pub get_error_info : RpcClient → Bytes
get_error_info c = elim c.rpc_controller [ none ↦ [] | some k ↦ error_text k ]

-- Without a channel the program exits.
unfoldable pub open_async : RpcClient → Option RpcClient
open_async c = elim c.rpc_channel [
  | none ↦ none
  | some channel ↦ some (record c { rpc_channel = some (open_rpc_async_mode channel) })
]

unfoldable pub get_async : List (ℕ × Communicates) → Bytes → RpcClient → RpcClient × Option Bytes
get_async done method_name c = elim c.rpc_channel [
  | none ↦ (c, none)
  | some channel ↦
      let (channel', r) = get_async_response done method_name channel in
      (record c { rpc_channel = some channel' }, r)
]
