-- ===== src/RpcCenter/Process.antt =====
-- ProcessCenterData of src/rpc_center/rpc_center.cpp, which the election and the leader thread call
-- for each message of their queues.
pub mod Confirm
pub mod Status
pub mod Pings
mod Tests
use libevrpc.Base.{Bool, true, false, Option, none, some, List, [], ◌∷◌, if◌then◌else◌, not}
use libevrpc.Base.Int.{ℤ}
use libevrpc.Base.Fault.{Run, ok, fault, ◌>>=◌, deref}
use libevrpc.Util.Thread.{start, stop, is_alive}
use libevrpc.Proto.{
  following, CenterAction, inquiry, proposal, leader_confirm, follower_ping, leader_ping_response,
  CentersProto, RpcClusterServer, empty_centers,
}
use libevrpc.LoadBalancer.{
  ConsistentHashLoadBalancer, add_rpc_server, get_current_lb_result, update_lb_result,
}
use libevrpc.RpcCenter.{
  MessageThread, Effect, sent_center, closed, RpcCenter, Env, add_effects, update_center_status,
}
use libevrpc.RpcCenter.Election.{leader_predicate, is_accept, update_oc_status}

-- Answers on a descriptor; the result of a failed RpcSend, which closes it, is only printed.
abbrev pub reply : Env → ℤ → CentersProto → RpcCenter → RpcCenter
reply env fd p c = add_effects ((if env.send_ok fd then sent_center fd p else closed fd) ∷ []) c

abbrev pub close : ℤ → RpcCenter → RpcCenter
close fd c = add_effects (closed fd ∷ []) c

abbrev pub inquiry_answer : Env → CentersProto → RpcCenter → CentersProto
inquiry_answer env p c = record empty_centers {
  from_center_addr = env.local_address;
  center_status = c.center_status;
  center_action = p.center_action;
  start_time = c.start_time;
  lc_start_time = c.leader_infos.lc_start_time;
  logical_clock = c.logical_clock;
  leader_center = c.leader_infos.leader_center;
}

answer_inquiry : Env → ℤ → CentersProto → RpcCenter → RpcCenter × Bool
answer_inquiry env fd p c =
    if not env.serialize_ok
    then (close fd c, false)
    else (close fd (reply env fd (inquiry_answer env p c) c), true)

judge_proposal : Env → ℤ → CentersProto → RpcCenter → Run (RpcCenter × Bool)
judge_proposal env fd p c =
    if is_accept (leader_predicate c.logical_clock c.leader_infos p)
    then (do updated ← update_oc_status env p c; ok (close fd updated.0, true))
    else ok (close fd c, true)

-- reporter_thread_->Start(), where it is not NULL.
abbrev pub start_reporter : Env → RpcCenter → RpcCenter
start_reporter env c = elim c.reporter_thread [
  | none ↦ c
  | some t ↦ record c { reporter_thread = some (start env.created t).0 }
]

stop_leader : Env → RpcCenter → Run RpcCenter
stop_leader env c = do
  lt ← deref c.leader_thread
  ok (record c {
    leader_thread = some (
        if is_alive lt.thread then record lt { thread = (stop env.cancelled lt.thread).0 } else lt);
  })

judge_confirm : Env → ℤ → CentersProto → RpcCenter → Run (RpcCenter × Bool)
unfolding stop_leader
judge_confirm env fd p c =
    let c1 = start_reporter env c in
    if is_accept (leader_predicate c.logical_clock c.leader_infos p)
    then (do c2 ← stop_leader env (update_center_status following c1); ok (close fd c2, true))
    else ok (close fd c1, true)

unfoldable pub add_servers :
    List RpcClusterServer → ConsistentHashLoadBalancer → ConsistentHashLoadBalancer
add_servers [] lb = lb
add_servers (s ∷ ss) lb = add_servers ss (add_rpc_server s lb).0

abbrev pub ping_answer : RpcCenter → CentersProto
ping_answer c = record empty_centers {
  center_action = leader_ping_response;
  lb_result = (get_current_lb_result [] c.load_balancer).0;
}

take_ping : Env → ℤ → CentersProto → RpcCenter → RpcCenter × Bool
unfolding add_servers
take_ping env fd p c =
    let c1 : RpcCenter = record c {
      load_balancer = add_servers p.server_infos_list c.load_balancer;
    } in
    if not env.serialize_ok
    then (close fd c1, false)
    else (close fd (reply env fd (ping_answer c1) c1), true)

unfoldable pub process_center_data : Env → ℤ → CentersProto → RpcCenter → Run (RpcCenter × Bool)
unfolding answer_inquiry judge_proposal judge_confirm take_ping
process_center_data env fd p c = elim p.center_action [
  | inquiry ↦ ok (answer_inquiry env fd p c)
  | proposal ↦ judge_proposal env fd p c
  | leader_confirm ↦ judge_confirm env fd p c
  | follower_ping ↦ ok (take_ping env fd p c)
  | leader_ping_response ↦ ok (
    close fd (record c { load_balancer = (update_lb_result p.lb_result c.load_balancer).0 }),
    true,
  )
  | _ ↦ ok (close fd c, true)
]
