-- ===== src/RpcCenter/Election/Rounds.antt =====
-- A round of an election, src/rpc_center/rpc_center.cpp: InquiryCenters, ProposalLeaderElection,
-- FastLeaderElection and StartFastLeaderElection.
use libevrpc.Base.{ℕ, Bool, true, false, none, some, List, [], ◌∷◌, ◌++◌, if◌then◌else◌, not}
use libevrpc.Base.Int.{is_neg}
use libevrpc.Base.Fault.{Run, ok, ◌>>=◌, deref}
use libevrpc.Base.Bytes.{Bytes, bytes_key}
use libevrpc.Util.Thread.{start}
use libevrpc.Proto.{looking, unkonw, inquiry, proposal, CentersProto, empty_centers}
use libevrpc.RpcCenter.{
  OtherCenter, LeaderInfos, Effect, sent_center, closed, Others, RpcCenter, Env, status_eq,
  not_positive, add_effects, increase_logical_clock, set_fast_leader_running, broadcast_info,
}
use libevrpc.RpcCenter.Election.{leader_predicate, is_accept}

-- What one round of the loop of InquiryCenters changes.
pub record Inquired : Type 0 where
  pub center : OtherCenter
  pub leader : LeaderInfos
  pub done : List Effect

-- The answer of an inquired center, taken as a proposal of that center itself.
abbrev pub candidate : CentersProto → CentersProto
candidate r = record r { lc_start_time = r.start_time; leader_center = r.from_center_addr }

abbrev pub infos_of : CentersProto → LeaderInfos
infos_of p = record { lc_start_time = p.lc_start_time; leader_center = p.leader_center }

unfoldable pub answered : ℕ → CentersProto → OtherCenter → LeaderInfos → List Effect → Inquired
answered clock r oc lc es = record {
  center = record oc { start_time = r.start_time; center_status = r.center_status };
  leader =
      if is_accept (leader_predicate clock lc (candidate r)) then infos_of (candidate r) else lc;
  done = es;
}

-- A failed RpcSend closes the descriptor, a failed RpcRecv leaves it open.
unfoldable pub inquire_one : Env → ℕ → CentersProto → Bytes → OtherCenter → LeaderInfos → Inquired
unfolding answered
inquire_one env clock message addr oc lc =
    let fd = env.connect addr in
    let same : List Effect → Inquired = λ es. record { center = oc; leader = lc; done = es } in
    if not (status_eq unkonw oc.center_status)
    then same []
    else if not_positive fd
    then same []
    else if not (env.send_ok fd)
    then same (closed fd ∷ [])
    else if is_neg (env.recv fd).0
    then same (sent_center fd message ∷ [])
    else elim (env.parse_centers (env.recv fd).1) [
      | none ↦ same (sent_center fd message ∷ closed fd ∷ [])
      | some r ↦ answered clock r oc lc (sent_center fd message ∷ closed fd ∷ [])
    ]

pub record Inquiries : Type 0 where
  pub centers : Others
  pub leader : LeaderInfos
  pub done : List Effect

unfoldable pub inquire : Env → ℕ → CentersProto → Others → LeaderInfos → Inquiries
unfolding inquire_one
inquire env clock message [] lc = record { centers = []; leader = lc; done = [] }
inquire env clock message ((addr, oc) ∷ rest) lc =
    let one = inquire_one env clock message addr oc lc in
    let later = inquire env clock message rest one.leader in
    record {
      centers = (addr, one.center) ∷ later.centers;
      leader = later.leader;
      done = one.done ++ later.done;
    }

abbrev pub inquiry_message : Env → RpcCenter → CentersProto
inquiry_message env c = record empty_centers {
  from_center_addr = env.local_address;
  center_status = c.center_status;
  center_action = inquiry;
  start_time = c.start_time;
  logical_clock = c.logical_clock;
}

unfoldable pub inquiry_centers : Env → RpcCenter → RpcCenter × Bool
unfolding inquire
inquiry_centers env c =
    let all = inquire env c.logical_clock (inquiry_message env c) c.other_centers c.leader_infos in
    if not env.serialize_ok then (c, false) else (
      add_effects all.done (record c { other_centers = all.centers; leader_infos = all.leader }),
      true,
    )

abbrev pub proposal_message : Env → RpcCenter → CentersProto
proposal_message env c = record empty_centers {
  from_center_addr = env.local_address;
  center_status = looking;
  center_action = proposal;
  start_time = c.start_time;
  lc_start_time = c.leader_infos.lc_start_time;
  logical_clock = c.logical_clock;
  leader_center = c.leader_infos.leader_center;
}

unfoldable pub proposal_leader_election : Env → RpcCenter → RpcCenter × Bool
proposal_leader_election env c =
    let c1 = increase_logical_clock c in
    if not env.serialize_ok
    then (c1, false)
    else (broadcast_info env (proposal_message env c1) c1, true)

unfoldable pub fast_leader_election : Env → RpcCenter → RpcCenter × Bool
fast_leader_election env c = ((proposal_leader_election env (inquiry_centers env c).0).0, true)

-- election_thread_ is not NULL once the center is initialised.
unfoldable pub start_fast_leader_election : Env → RpcCenter → Run (RpcCenter × Bool)
start_fast_leader_election env c =
    if c.fastleader_election_running then ok (fast_leader_election env c) else (do
      et ← deref c.election_thread
      let started = start env.created et.thread
      let c1 : RpcCenter = record c { election_thread = some (record et { thread = started.0 }) }
      (if not started.1
          then ok (c1, false)
          else ok (fast_leader_election env (set_fast_leader_running true c1))))
