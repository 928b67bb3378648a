-- ===== src/RpcCenter/Requests.antt =====
-- CenterProcessor of src/rpc_center/rpc_center.cpp and the requests that it serves. The file has
-- the branches of CenterProcessor a second time, as ProcessCenterRequest, ProcessClientRequest and
-- ProcessClusterRequest, with the same text; here CenterProcessor calls these.
pub mod Leader
use libevrpc.Base.{
  ℕ, Bool, true, false, Option, none, some, List, [], ◌∷◌, ◌++◌, ◌==◌, if◌then◌else◌, not, map,
}
use libevrpc.Base.Int.{ℤ, pos, negsuc, is_neg, eq_ℤ}
use libevrpc.Base.Fault.{Run, ok, fault, ◌>>=◌, deref}
use libevrpc.Base.Bytes.{Bytes}
use libevrpc.Proto.{
  CenterStatus, leading, CenterAction, inquiry, proposal, leader_confirm, accept, refused,
  follower_ping, CentersProto, empty_centers, ClientWithCenter, empty_client, client_init_req,
  update_server_info, center_resp_ok, ClusterAction, register, cluster_ping, cluster_resp,
  center_not_ready, CenterResponseCluster, RpcClusterServer,
}
use libevrpc.LoadBalancer.{add_rpc_server, get_rpc_server}
use libevrpc.RpcCenter.{
  MessageThread, Effect, sent_center, sent_client, sent_cluster, closed, RpcCenter, Env, status_eq,
  add_effects, center_is_ready, add_rpc_server_to_buf,
}
use libevrpc.RpcCenter.Ring.{should_communicate, should_reporter}

-- PushElectionMessage and PushFollowerMessage: a queue that Destory has dropped is NULL.
abbrev pub push_message : ℤ → CentersProto → MessageThread → Run MessageThread
push_message fd p t = do q ← deref t.queue; ok (record t { queue = some (q ++ (fd, p) ∷ []) })

push_election : ℤ → CentersProto → RpcCenter → Run (RpcCenter × Bool)
push_election fd p c = elim c.election_thread [
  | none ↦ ok (c, false)
  | some et ↦ do et' ← push_message fd p et; ok (record c { election_thread = some et' }, true)
]

abbrev pub refusal : Env → CentersProto
refusal env = record empty_centers { from_center_addr = env.local_address; center_action = refused }

-- The message that a leader queues is a second, empty `response_proto`, not the one received.
push_follower : Env → ℤ → RpcCenter → Run (RpcCenter × Bool)
push_follower env fd c =
    if not (status_eq c.center_status leading)
    then (if not env.serialize_ok
        then ok (c, false)
        else if env.send_ok fd
        then ok (add_effects (sent_center fd (refusal env) ∷ []) c, true)
        else ok (add_effects (closed fd ∷ []) c, false))
    else (do
      lt ← deref c.leader_thread
      lt' ← push_message fd empty_centers lt
      ok (record c { leader_thread = some lt' }, true))

unfoldable pub process_center_request : Env → Bytes → ℤ → RpcCenter → Run (RpcCenter × Bool)
unfolding push_election push_follower
process_center_request env recv_message fd c = elim (env.parse_centers recv_message) [
  | none ↦ ok (c, false)
  | some p ↦ elim p.center_action [
    | inquiry ↦ push_election fd p c
    | proposal ↦ push_election fd p c
    | accept ↦ push_election fd p c
    | refused ↦ push_election fd p c
    | leader_confirm ↦ push_election fd p c
    | _ ↦ push_follower env fd c
  ]
]

-- A client that asks for its centers gets servers too; one that updates gets servers.
client_answer : ClientWithCenter → RpcCenter → Run ClientWithCenter
client_answer q c =
    let servers = (get_rpc_server q.from_addr [] c.load_balancer).0 in
    elim q.client_center_action [
      | client_init_req ↦ do
        centers ← should_communicate q.from_addr c.center_hash_map
        ok (record empty_client {
          client_center_action = center_resp_ok;
          should_communicate_center = centers;
          cluster_server_list = servers;
        })
      | update_server_info ↦ ok (record empty_client {
        client_center_action = center_resp_ok;
        cluster_server_list = servers;
      })
      | _ ↦ ok (record empty_client { client_center_action = center_resp_ok })
    ]

-- The answer is sent with `need_closed`; a failed RpcSend closes as well.
unfoldable pub process_client_request : Env → Bytes → ℤ → RpcCenter → Run (RpcCenter × Bool)
unfolding client_answer
process_client_request env recv_message fd c = elim (env.parse_client recv_message) [
  | none ↦ ok (c, false)
  | some q ↦ do
    answer ← client_answer q c
    ok (
        if not env.serialize_ok
        then (add_effects (closed fd ∷ []) c, false)
        else if env.send_ok fd
        then (add_effects (sent_client fd answer ∷ closed fd ∷ []) c, true)
        else (add_effects (closed fd ∷ []) c, false))
]

abbrev pub not_ready : CenterResponseCluster
not_ready = record { center_response_action = center_not_ready; should_reporter_center = [] }

abbrev pub reporters : List Bytes → CenterResponseCluster
reporters rs = record { center_response_action = cluster_resp; should_reporter_center = rs }

-- A leader places the server on its ring, a follower keeps it for its next report.
abbrev pub take_server : RpcClusterServer → RpcCenter → RpcCenter
take_server s c =
    if status_eq leading c.center_status
    then record c { load_balancer = (add_rpc_server s c.load_balancer).0 }
    else add_rpc_server_to_buf s c

register_server : Env → ℤ → RpcClusterServer → RpcCenter → Run (RpcCenter × Bool)
register_server env fd s c = do
  let c1 = take_server s c
  rs ← should_reporter s.cluster_server_addr c1.center_hash_map
  ok (
      if not env.serialize_ok
      then (c1, false)
      else if env.send_ok fd
      then (add_effects (sent_cluster fd (reporters rs) ∷ []) c1, true)
      else (add_effects (closed fd ∷ []) c1, false))

unfoldable pub process_cluster_request : Env → Bytes → ℤ → RpcCenter → Run (RpcCenter × Bool)
unfolding register_server
process_cluster_request env recv_message fd c =
    if not (center_is_ready c)
    then ok (
      add_effects ((if env.send_ok fd then sent_cluster fd not_ready else closed fd) ∷ []) c,
      false,
    )
    else elim (env.parse_cluster recv_message) [
      | none ↦ ok (c, false)
      | some s ↦ elim s.cluster_action [
        | register ↦ register_server env fd s c
        | cluster_ping ↦ ok (c, true)
      ]
    ]

-- CENTER2CENTER, CENTER2CLIENT and CENTER2CLUSTER are 100, 101 and 102.
unfoldable pub center_processor : Env → ℤ → RpcCenter → Run (RpcCenter × Bool)
center_processor env fd c =
    let (center_type, recv_message) = env.recv fd in
    if is_neg center_type
    then ok (add_effects (closed fd ∷ []) c, false)
    else if eq_ℤ center_type (pos 100)
    then process_center_request env recv_message fd c
    else if eq_ℤ center_type (pos 101)
    then process_client_request env recv_message fd c
    else if eq_ℤ center_type (pos 102)
    then process_cluster_request env recv_message fd c
    else ok (c, false)

-- The report of a follower to the leader, and what comes back on the same descriptor.
abbrev pub report : Env → RpcCenter → CentersProto
report env c = record empty_centers {
  from_center_addr = env.local_address;
  center_action = follower_ping;
  server_infos_list = map (λ (e : Bytes × RpcClusterServer). e.1) c.rpc_server_buf;
}

unfoldable pub reporter_processor : Env → ℤ → RpcCenter → Run (RpcCenter × Bool)
reporter_processor env fd c =
    if not env.serialize_ok
    then ok (c, false)
    else if env.send_ok fd
    then center_processor env fd (add_effects (sent_center fd (report env c) ∷ []) c)
    else ok (add_effects (closed fd ∷ []) c, false)
