-- ===== src/Heartbeat/Client.antt =====
-- CenterClientHeartbeat of src/rpc_client/center_client_heartbeat.{h,cpp}: the addresses of servers
-- that a client gets from a center.
pub mod Stale
use libevrpc.Base.{
  ℕ, Bool, true, false, Option, none, some, List, [], ◌∷◌, ◌++◌, ◌==◌, ◌||◌, if◌then◌else◌, length,
}
use libevrpc.Base.Int.{ℤ, pos, negsuc, is_neg}
use libevrpc.Base.Bytes.{Bytes}
use libevrpc.Base.Fault.{Run, ok, fault, ◌>>=◌, deref}
use libevrpc.Communication.{Sent, rpc_send, rpc_recv}
use libevrpc.Proto.{
  ClientWithCenter, empty_client, ClientClusterAction, client_init_req, update_server_info,
  center_resp_ok, center_resp_err,
}
use libevrpc.Heartbeat.{Env, not_positive, other_lines, random_addr, received, close_if}

-- CENTER2CLIENT
abbrev pub center2client : ℤ
center2client = pos 101

-- The addresses are std::vectors; `closes` lists the close() calls.
pub record CenterClientHeartbeat : Type 0 where
  pub center_addrs : List Bytes
  pub updatecenter_addrs : List Bytes
  pub cluster_server_addrs : List Bytes
  pub running : Bool
  pub closes : List ℤ

abbrev pub new_client_heartbeat : CenterClientHeartbeat
new_client_heartbeat = record {
  center_addrs = [];
  updatecenter_addrs = [];
  cluster_server_addrs = [];
  running = false;
  closes = [];
}

abbrev pub ClientEnv : Type 0
ClientEnv = Env ClientWithCenter ClientWithCenter

unfoldable pub get_rpc_server_list : CenterClientHeartbeat → List Bytes
get_rpc_server_list h = h.cluster_server_addrs

unfoldable pub random_get_rpc_server_addr : ℕ → CenterClientHeartbeat → Run Bytes
unfolding random_addr
random_get_rpc_server_addr random h = random_addr random h.cluster_server_addrs

unfoldable pub update_center_addrs : List Bytes → CenterClientHeartbeat → CenterClientHeartbeat
update_center_addrs list h = record h { updatecenter_addrs = h.updatecenter_addrs ++ list }

unfoldable pub update_server_addrs : List Bytes → CenterClientHeartbeat → CenterClientHeartbeat
update_server_addrs list h = record h { cluster_server_addrs = h.cluster_server_addrs ++ list }

abbrev pub add_closes : List ℤ → CenterClientHeartbeat → CenterClientHeartbeat
add_closes fds h = record h { closes = h.closes ++ fds }

abbrev pub update_lists : ClientWithCenter → CenterClientHeartbeat → CenterClientHeartbeat
update_lists p h =
    update_server_addrs p.cluster_server_list (update_center_addrs p.should_communicate_center h)

abbrev pub is_resp_ok : ClientClusterAction → Bool
is_resp_ok center_resp_ok = true
is_resp_ok client_init_req = false
is_resp_ok update_server_info = false
is_resp_ok center_resp_err = false

abbrev pub request_of : ClientClusterAction → ClientWithCenter
request_of action = record empty_client { client_center_action = action }

-- The answer to the first request.
init_answer : ClientEnv → ℤ × Bytes → CenterClientHeartbeat → CenterClientHeartbeat
init_answer env (id, text) h = if is_neg id then h else elim (env.parse text) [
  | none ↦ h
  | some p ↦ if is_resp_ok p.client_center_action then update_lists p h else h
]

-- The end of InitCenterClientHB, once RpcRecv has returned.
init_received :
    ClientEnv → ℤ → CenterClientHeartbeat → Option (ℤ × Bytes) → CenterClientHeartbeat × Option Bool
unfolding init_answer
init_received env fd h none = (h, none)
init_received env fd h (some got) =
    (record (add_closes (fd ∷ []) (init_answer env got h)) { running = true }, some true)

-- On a connected descriptor.
init_exchange : ClientEnv → ℤ → CenterClientHeartbeat → Run (CenterClientHeartbeat × Option Bool)
unfolding init_received
init_exchange env fd h = elim (env.serialize (request_of client_init_req)) [
  | none ↦ ok (add_closes (fd ∷ []) h, some false)
  | some text ↦
      let s = rpc_send env.send center2client text false in
      if is_neg s.ret
      then ok (add_closes (close_if s.closed fd ++ fd ∷ []) h, some false)
      else (do got ← received (rpc_recv env.recv [] false); ok (init_received env fd h got))
]

-- InitCenterClientHB on the lines of the file of centers, if there is one; its result is none while it waits.
unfoldable pub init_center_client_hb :
    ClientEnv
    → Bytes
    → Option (List Bytes)
    → CenterClientHeartbeat
    → Run (CenterClientHeartbeat × Option Bool)
unfolding init_exchange
init_center_client_hb env local_addr none h = ok (h, some false)
init_center_client_hb env local_addr (some lines) h =
    let h1 = record h { center_addrs = h.center_addrs ++ other_lines local_addr lines } in
    if length h1.center_addrs == 0 then ok (h1, some false) else (do
      addr ← random_addr env.random h1.center_addrs
      let fd = env.connect addr
      (if not_positive fd then ok (h1, some false) else init_exchange env fd h1))

-- `if (RpcRecv(...) >= 0 || ParseFromString(...))`: what was received is parsed only when RpcRecv has
-- failed, and otherwise the lists of an empty message are added.
round_answer : ClientEnv → ℤ × Bytes → CenterClientHeartbeat → CenterClientHeartbeat
round_answer env (id, text) h =
    if is_neg id
    then elim (env.parse text) [ none ↦ h | some p ↦ update_lists p h ]
    else update_lists empty_client h

round_received :
    ClientEnv → ℤ → CenterClientHeartbeat → Option (ℤ × Bytes) → CenterClientHeartbeat × Bool
unfolding round_answer
round_received env fd h none = (h, false)
round_received env fd h (some got) = (add_closes (fd ∷ fd ∷ []) (round_answer env got h), true)

-- A round of the loop of Run; the second result is false while RpcRecv waits. RpcRecv closes the
-- descriptor, and Run closes it again.
unfoldable pub client_round : ClientEnv → CenterClientHeartbeat → Run (CenterClientHeartbeat × Bool)
unfolding round_received
client_round env h = elim (env.serialize (request_of update_server_info)) [
  | none ↦ ok (h, true)
  | some text ↦ (do
    addr ← random_addr env.random h.center_addrs
    let fd = env.connect addr
    let s = rpc_send env.send center2client text false
    (if not_positive fd
        then ok (add_closes (fd ∷ []) h, true)
        else if is_neg s.ret
        then ok (add_closes (close_if s.closed fd ++ fd ∷ []) h, true)
        else (do got ← received (rpc_recv env.recv [] true); ok (round_received env fd h got))))
]

-- `while (running_)`, over the rounds that the thread gets.
unfoldable pub client_loop :
    List ClientEnv → CenterClientHeartbeat → Run (CenterClientHeartbeat × Bool)
client_loop [] h = ok (h, true)
client_loop (env ∷ envs) h =
    let rest : Run (CenterClientHeartbeat × Bool) = (do
      done ← client_round env h
      let more = client_loop envs (done.0)
      (if done.1 then more else ok done)) in
    if h.running then rest else ok (h, true)

client_started :
    List ClientEnv → CenterClientHeartbeat × Option Bool → Run (CenterClientHeartbeat × Bool)
client_started envs (h, none) = ok (h, false)
client_started envs (h, some false) = ok (h, true)
client_started envs (h, some true) =
    let loop = client_loop envs h in
    if (length h.updatecenter_addrs == 0) || (length h.center_addrs == 0)
    then ok (h, true)
    else loop

unfoldable pub client_run :
    ClientEnv
    → Bytes
    → Option (List Bytes)
    → List ClientEnv
    → CenterClientHeartbeat
    → Run (CenterClientHeartbeat × Bool)
unfolding client_started
client_run env local_addr file envs h = do
  started ← init_center_client_hb env local_addr file h
  client_started envs started
