-- ===== src/RpcClient/Channel/Call.antt =====
-- CallMethod of src/rpc_client/rpc_channel.cpp: the address, the awaited call, and the call in a
-- thread.
use libevrpc.Base.{ℕ, Bool, true, false, Option, none, some, if◌then◌else◌}
use libevrpc.Base.Int.{is_neg}
use libevrpc.Base.Bytes.{Bytes, nat_key}
use libevrpc.Base.Fault.{Run, ok, fault, ◌>>=◌, deref}
use libevrpc.Heartbeat.{random_addr}
use libevrpc.RpcClient.Controller.{RpcController, set_failed}
use libevrpc.RpcClient.Channel.{
  ErrorInfo, Channel, RpcCallParams, Env, Retry, retry_loop, Exchange, rpc_communication,
  connect_failed, parse_response_error, stopped, overflow, unfinished, replied, failed_with,
  no_reply,
}
use libevrpc.RpcClient.Channel.Pending.{async_rpc_call}

-- `local_addr`: a copy of `addr_`, or the inside of the string that RandomGetRpcServerAddr returned,
-- which has been destroyed at the end of the statement.
pub data LocalAddr : Type 0 where
  copied : Bytes → LocalAddr
  dangling : Bytes → LocalAddr

unfoldable pub call_address : ℕ → Channel → Run LocalAddr
call_address random c = elim c.center_client_heartbeat [
  | none ↦ (do addr ← deref c.addr; ok (copied addr))
  | some servers ↦ (do addr ← random_addr random servers; ok (dangling addr))
]

-- TcpConnect reads the text.
abbrev pub read_address : LocalAddr → Run Bytes
read_address (copied addr) = ok addr
read_address (dangling addr) = fault

abbrev pub fail : Env → ErrorInfo → Option RpcController → Option RpcController
fail env e none = none
fail env e (some controller) = some (set_failed (env.text e) controller)

-- The channel, the controller and the parsed response after CallMethod.
pub record Called : Type 0 where
  pub channel : Channel
  pub controller : Option RpcController
  pub response : Option ℕ

-- A call that is awaited, on the connected channel; none while it waits.
unfoldable pub finish_call : Env → Option RpcController → Channel → Exchange → Option Called
finish_call env controller c no_reply = none
finish_call env controller c (failed_with e) = some (record {
  channel = record c { error_info = some e };
  controller = fail env e controller;
  response = none;
})
finish_call env controller c (replied text) = some (elim (env.parse_response text) [
  | none ↦ record {
    channel = c;
    controller = fail env parse_response_error controller;
    response = none;
  }
  | some m ↦ record { channel = c; controller = controller; response = some m }
])

unfoldable pub call_connected :
    Env → RpcCallParams → Option RpcController → Channel → Run (Option Called)
unfolding finish_call
call_connected env call controller c =
    if is_neg c.connect_fd
    then ok (
        some (record {
          channel = c;
          controller = fail env connect_failed controller;
          response = none;
        }))
    else if c.is_channel_async_call
    then ok (
        some (record {
          channel = (async_rpc_call env.tid call.method_client_name c).0;
          controller = controller;
          response = none;
        }))
    else (do x ← rpc_communication env.send env.recv call; ok (finish_call env controller c x))

unfoldable pub call_retried :
    Env → RpcCallParams → Option RpcController → Channel → Retry → Run (Option Called)
unfolding call_connected
call_retried env call controller c (stopped fd tries) =
    call_connected env call controller (record c { connect_fd = fd })
call_retried env call controller c overflow = fault
call_retried env call controller c unfinished = ok none

abbrev pub has_address : Channel → Bool
has_address c = elim c.center_client_heartbeat [
  | some servers ↦ true
  | none ↦ elim c.addr [ none ↦ false | some a ↦ elim c.port [ none ↦ false | some p ↦ true ] ]
]

-- None: the call has not returned, within `fuel` attempts to connect.
unfoldable pub call_method :
    Env → ℕ → RpcCallParams → Option RpcController → Channel → Run (Option Called)
unfolding call_retried call_address
call_method env fuel call controller c =
    if has_address c
    then (do
      local_addr ← call_address env.random c
      addr ← read_address local_addr
      call_retried env call controller c (retry_loop (env.connect addr) fuel 0 c.try_time))
    else ok (some (record { channel = c; controller = controller; response = none }))
