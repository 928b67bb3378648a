-- ===== src/RpcClient/Channel.antt =====
-- Channel of src/rpc_client/rpc_channel.{h,cpp}: its state, the retry loop and one exchange over TCP.
-- What the sockets and the generated code do is an argument. Guarded blocks are single steps.
pub mod Pending
pub mod Call
pub mod Attempts
pub mod Async
pub mod Order
pub mod Awaited
use libevrpc.Base.{
  ℕ, zero, suc, ◌+◌, ◌-◌, ◌^◌, Bool, true, false, Option, none, some, List, [], ◌∷◌, ◌++◌,
  if◌then◌else◌, ltb, leb, length, get_elem?, ◌%◌, ◌==◌,
}
use libevrpc.Base.Int.{ℤ, pos, negsuc, is_neg, eq_ℤ, signed32}
use libevrpc.Base.Bytes.{Bytes, nat_key}
use libevrpc.Base.HashMap.{find, put, insert, erase}
use libevrpc.Base.Fault.{Run, ok, fault, ◌>>=◌, deref}
use libevrpc.Util.Hash.{bkdr_hash}
use libevrpc.Communication.{
  Sent, rpc_send, RecvResult, RecvRun, returned, waiting, overrun, rpc_recv, error_recv,
}
use libevrpc.Communication.Connect.{tcp_conn_timeout}
use libevrpc.RpcClient.Controller.{RpcController, set_failed}

-- The texts that the channel gives to SetFailed or puts into error_info_.
pub data ErrorInfo : Type 0 where
  connect_failed serialize_request_failed send_data_error recv_data_error : ErrorInfo
  response_list_failed parse_response_error : ErrorInfo

-- The addresses of the servers that the heartbeat holds, where there is one. The lists of threads
-- stand under the hash of the name of their method, the results under their threads.
pub record Channel : Type 0 where
  pub addr : Option Bytes
  pub port : Option Bytes
  pub connect_fd : ℤ
  pub is_channel_async_call : Bool
  pub call_limit : ℤ
  pub tcp_conn_timeout_ms : ℤ
  pub try_time : ℤ
  pub center_client_heartbeat : Option (List Bytes)
  pub error_info : Option ErrorInfo
  pub thread_ids : List ℕ
  pub call_results : List (ℕ × Bytes)
  pub call_tids : List (ℕ × List ℕ)

-- The constructor for a single server leaves the pointer to the heartbeat as it was in memory.
unfoldable pub channel_to : Option (List Bytes) → Bytes → Bytes → Channel
channel_to garbage addr port = record {
  addr = some addr;
  port = some port;
  connect_fd = pos 0;
  is_channel_async_call = false;
  call_limit = pos 100;
  tcp_conn_timeout_ms = pos 1000;
  try_time = pos 1;
  center_client_heartbeat = garbage;
  error_info = none;
  thread_ids = [];
  call_results = [];
  call_tids = [];
}

unfoldable pub distributed_channel : List Bytes → Bytes → Channel
unfolding channel_to
distributed_channel servers port = record (channel_to (some servers) [] port) { addr = none }

unfoldable pub open_rpc_async_mode : Channel → Channel
open_rpc_async_mode c = record c { is_channel_async_call = true }

unfoldable pub set_connection_info : ℤ → ℤ → Channel → Channel
set_connection_info timeout try_time c = record c {
  tcp_conn_timeout_ms = timeout;
  try_time = try_time;
}

unfoldable pub set_call_limit : ℤ → Channel → Channel
set_call_limit limit c = record c { call_limit = limit }

-- A request that cannot be serialized is none.
pub record RpcCallParams : Type 0 where
  pub method_full_name : Bytes
  pub method_client_name : Bytes
  pub request : Option Bytes
  pub has_response : Bool

-- TcpConnect by address and attempt, send() and recv(), the texts of the errors, the generated
-- parser of the response, rand(), and the thread that pthread_create starts.
pub record Env : Type 0 where
  pub connect : Bytes → ℕ → ℤ
  pub send : ℕ → Bool
  pub recv : List RecvResult
  pub text : ErrorInfo → Bytes
  pub parse_response : Bytes → Option ℕ
  pub random : ℕ
  pub tid : ℕ

-- The retry loop ends with a descriptor after some attempts, or its counter overflows.
pub data Retry : Type 0 where
  stopped : ℤ → ℕ → Retry
  overflow unfinished : Retry

-- `--try_times` on an int32_t; none below its least number.
abbrev pub decrement : ℤ → Option ℤ
decrement (pos zero) = some (negsuc 0)
decrement (pos (suc n)) = some (pos n)
decrement (negsuc n) = if ltb (suc n) (2 ^ 31) then some (negsuc (suc n)) else none

-- The condition of the loop, `try_times <= 0`.
abbrev pub at_most_zero : ℤ → Bool
at_most_zero (pos zero) = true
at_most_zero (pos (suc n)) = false
at_most_zero (negsuc n) = true

-- The loop of CallMethod from the i-th attempt on.
unfoldable pub retry_loop : (ℕ → ℤ) → ℕ → ℕ → ℤ → Retry
retry_loop connect zero i try_times = unfinished
retry_loop connect (suc fuel) i try_times =
    let fd = connect i in
    let again : Retry = elim (decrement try_times) [
      | none ↦ overflow
      | some left ↦
          let rest = retry_loop connect fuel (i + 1) left in
          if at_most_zero left then rest else stopped fd (i + 1)
    ] in
    if eq_ℤ fd tcp_conn_timeout then again else stopped fd (i + 1)

-- What RpcCommunication comes to: the text of the response, an error, or no end.
pub data Exchange : Type 0 where
  replied : Bytes → Exchange
  failed_with : ErrorInfo → Exchange
  no_reply : Exchange

unfoldable pub exchanged : RecvRun → Run Exchange
exchanged (returned id text c) =
    ok (if eq_ℤ id error_recv then failed_with recv_data_error else replied text)
exchanged (waiting text) = ok no_reply
exchanged overrun = fault

-- What the call puts on the wire.
unfoldable pub call_sent : (ℕ → Bool) → Bytes → Bytes → Sent
call_sent send full_name text = rpc_send send (signed32 (bkdr_hash full_name)) text false

-- `response->New()` on a response of NULL.
unfoldable pub rpc_communication : (ℕ → Bool) → List RecvResult → RpcCallParams → Run Exchange
unfolding exchanged call_sent
rpc_communication send recv call =
    if call.has_response
    then elim call.request [
      | none ↦ ok (failed_with serialize_request_failed)
      | some text ↦
          if is_neg (call_sent send call.method_full_name text).ret
          then ok (failed_with send_data_error)
          else exchanged (rpc_recv recv [] true)
    ]
    else fault
