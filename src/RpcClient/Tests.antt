-- ===== src/RpcClient/Tests.antt =====
-- The client on a channel to one server, and asynchronous calls of one method.
use libevrpc.Base.{
  ℕ, ◌≡◌, Option, Bool, not, refl, true, false, none, some, List, [], ◌∷◌, ◌==◌, if◌then◌else◌,
  arith,
}
use libevrpc.Base.Int.{ℤ, pos, negsuc, is_neg}
use libevrpc.Base.Bytes.{Bytes, nat_key, cstr}
use libevrpc.Base.HashMap.{find}
use libevrpc.Base.Fault.{ok}
use libevrpc.Util.Hash.{bkdr_hash}
use libevrpc.Communication.{
  meta_data, chunk, rpc_send, rpc_recv, send_blocks, send_rest, recv_loop, parse_meta,
}
use libevrpc.Communication.Connect.{
  tcp_conn_timeout, Attempt, connected, in_progress, timed_out, ready, tcp_connect,
}
use libevrpc.RpcClient.Controller.{new_controller}
use libevrpc.RpcClient.Channel.{
  exchanged, Channel as ClientChannel, RpcCallParams, Env, stopped, retry_loop, replied,
  rpc_communication, call_sent,
}
use libevrpc.RpcClient.Channel.Call.{Called, call_method}
use libevrpc.RpcClient.Channel.Attempts.{retry_loop-tcp_connect}
use libevrpc.RpcClient.Channel.Pending.{Communicates}
use libevrpc.RpcClient.Channel.Async.{call_all, left_by}
use libevrpc.RpcClient.Channel.Order.{get_all, async_in_order}
use libevrpc.RpcClient.Channel.Awaited.{Tells, call_method-Tells}

-- Two attempts run into the time limit, the third gives a descriptor.
abbrev third : ℕ → ℤ
third i = if i == 2 then pos 7 else tcp_conn_timeout

retry_loop-third : retry_loop third 9 0 (pos 1) ≡ stopped (pos 7) 3
unfolding retry_loop
retry_loop-third = refl

-- No address answers within the time limit.
abbrev slow : ℕ → Option (List Attempt)
slow i =
    some
      (record { socket = pos 4; nodelay_ok = true; connect = in_progress; select = timed_out } ∷ [])

abbrev is_open : ℤ → Bool
is_open fd = not (is_neg fd)

retry_loop-tcp_connect_example :
    let connect : ℕ → ℤ = λ i. (tcp_connect is_open (pos 1000) (slow i)).0 in
    retry_loop connect 9 0 (pos 5) ≡ stopped (connect 0) 1
retry_loop-tcp_connect_example = retry_loop-tcp_connect is_open (pos 1000) slow 8 (pos 5) refl

abbrev fast : ℕ → Option (List Attempt)
fast i =
    some (record { socket = pos 7; nodelay_ok = true; connect = connected; select = ready } ∷ [])

abbrev name : Bytes
name = b'e' ∷ []

abbrev channel : ClientChannel
channel = record {
  addr = some (b'h' ∷ []);
  port = some (b'9' ∷ []);
  connect_fd = pos 0;
  is_channel_async_call = false;
  call_limit = pos 100;
  tcp_conn_timeout_ms = pos 1000;
  try_time = pos 1;
  center_client_heartbeat = none;
  error_info = none;
  thread_ids = [];
  call_results = [];
  call_tids = [];
}

-- The thread of the second call ends first.
abbrev rounds : List (List (ℕ × Communicates))
rounds = ((12, λ fd. replied (b'y' ∷ [])) ∷ (11, λ fd. replied (b'x' ∷ [])) ∷ []) ∷ [] ∷ []

async_in_order_example :
    get_all name rounds (call_all name (11 ∷ 12 ∷ []) channel)
    ≡ some (b'x' ∷ []) ∷ some (b'y' ∷ []) ∷ []
unfolding find left_by
async_in_order_example =
    async_in_order name (11, b'x' ∷ []) ((12, b'y' ∷ []) ∷ []) rounds channel refl refl
      (((λ e. ground arith), tt), (tt, tt)) (refl, (refl, refl))

abbrev request : RpcCallParams
request = record {
  method_full_name = b'S' ∷ b'.' ∷ b'e' ∷ [];
  method_client_name = name;
  request = some (8 ∷ 1 ∷ []);
  has_response = true;
}

abbrev env : Env
env = record {
  connect = λ a i. (tcp_connect is_open (pos 1000) (fast i)).0;
  send = λ k. true;
  recv = chunk (meta_data (negsuc 0) (b'h' ∷ [])) ∷ [];
  text = λ e. [];
  parse_response = λ text. none;
  random = 0;
  tid = 3;
}

exchange : rpc_communication env.send env.recv request ≡ ok (replied (b'h' ∷ []))
unfolding rpc_communication exchanged call_sent rpc_send send_blocks send_rest bkdr_hash meta_data
    rpc_recv recv_loop parse_meta cstr
exchange = refl

call_method-Tells_example :
    (r : Called) × (call_method env 9 request (some new_controller) channel ≡ ok (some r))
    × Tells env (tcp_connect is_open (pos 1000) (fast 0)).0 new_controller (replied (b'h' ∷ [])) r
call_method-Tells_example =
    call_method-Tells env 8 is_open (pos 1000) fast request new_controller channel (b'h' ∷ [])
      (b'9' ∷ []) (replied (b'h' ∷ [])) refl refl refl refl refl refl exchange (λ e. ground arith)
