-- ===== src/RpcCenter/Threads/Tests.antt =====
-- A leader thread and a reporter at work, src/rpc_center/{leader,reporter}_thread.cpp.
use libevrpc.Base.{
  ℕ, zero, suc, refl, true, false, none, some, List, [], ◌∷◌, arith, replicate, All,
}
use libevrpc.Base.Int.{pos, negsuc}
use libevrpc.Util.Thread.{fresh}
use libevrpc.Proto.{leading, follower_ping, CentersProto, empty_centers}
use libevrpc.LoadBalancer.{construct}
use libevrpc.RpcCenter.{MessageThread, RpcCenter, Env}
use libevrpc.RpcCenter.Threads.{Report, reporter_run}
use libevrpc.RpcCenter.Threads.GivesUp.{Unreachable, GivesUp, reporter_run-GivesUp}

abbrev ping : CentersProto
ping = record empty_centers { center_action = follower_ping }

-- No message can be sent.
abbrev env : Env
env = record {
  local_address = b'a' ∷ b'1' ∷ [];
  connect = λ addr. negsuc 0;
  send_ok = λ fd. false;
  recv = λ fd. (negsuc 0, []);
  serialize_ok = true;
  parse_centers = λ text. some ping;
  parse_client = λ text. none;
  parse_cluster = λ text. none;
  created = true;
  cancelled = true;
}

abbrev thread : MessageThread
thread = record { thread = fresh; running = false; queue = some ((pos 5, ping) ∷ []) }

abbrev center : RpcCenter
center = record {
  center_status = leading;
  start_time = 4;
  leader_infos = record { lc_start_time = 4; leader_center = b'a' ∷ b'1' ∷ [] };
  other_centers = [];
  election_done_num = 1;
  logical_clock = 1;
  fastleader_election_running = false;
  election_thread = some thread;
  reporter_thread = some fresh;
  leader_thread = some thread;
  load_balancer = construct [];
  center_hash_map = [];
  rpc_server_buf = [];
  effects = [];
}

abbrev lost : Report
lost = record { conn_fd = pos 6; again_fd = negsuc 0; env = env }

abbrev still : Unreachable lost
still = (refl, refl, refl)

abbrev lost_rounds : List Report
lost_rounds = replicate 13 lost

lost_rounds-Unreachable : (n : ℕ) → All Unreachable (replicate n lost)
lost_rounds-Unreachable zero = tt
lost_rounds-Unreachable (suc n) = (still, lost_rounds-Unreachable n)

reporter_run-GivesUp_example : GivesUp center (reporter_run true lost_rounds center)
reporter_run-GivesUp_example =
    reporter_run-GivesUp lost_rounds center (lost_rounds-Unreachable 13) (omega arith)
