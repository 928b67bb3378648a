-- ===== src/RpcCenter/Tests.antt =====
-- Small centers, src/rpc_center/rpc_center.cpp, on which the results about a center are applied.
use libevrpc.Base.{
  ◌+◌, ◌*◌, ◌<◌, ◌≡◌, ◌≢◌, refl, ap, sym, ◌↔◌, ◌⊎◌, Bool, true, false, Option, none, some, [], ◌∷◌,
  length,
}
use libevrpc.Base.Int.{pos, negsuc}
use libevrpc.Base.Fault.{ok, fault}
use libevrpc.Base.Bytes.{Bytes, bytes_eq, until_nul}
use libevrpc.Base.OrdMap.{lower_bound}
use libevrpc.Util.Thread.{fresh, start}
use libevrpc.Proto.{
  inquiry, leading, unkonw, accept, leader_confirm, follower_ping, CentersProto, empty_centers,
}
use libevrpc.LoadBalancer.{construct, hash_id}
use libevrpc.RpcCenter.{zeroed, MessageThread, RpcCenter, Env, set_fast_leader_running, closed}
use libevrpc.RpcCenter.Election.{leader_predicate}
use libevrpc.RpcCenter.Election.Rounds.{
  infos_of, inquiry_centers, fast_leader_election, start_fast_leader_election,
}
use libevrpc.RpcCenter.Election.Order.{Beats, leader_predicate_iff}
use libevrpc.RpcCenter.Election.Inquiry.{AtLeast, NoneBeats, OneOf, SameRound, inquiry_centers-Best}
use libevrpc.RpcCenter.Ring.{regist_new_center, CenterHashMap, should_reporter}
use libevrpc.RpcCenter.Ring.Walks.{TooShort, Picks, should_reporter-Picks}
use libevrpc.RpcCenter.Requests.{center_processor}
use libevrpc.RpcCenter.Requests.Leader.{SameElection, center_processor-SameElection}
use libevrpc.RpcCenter.Boot.{construct_center, init_rpc_center, read_centers, read_line}
use libevrpc.RpcCenter.Boot.Fresh.{init_rpc_center_asks_nobody}
use libevrpc.RpcCenter.NeverLeads.{here, next, elects, never_leads}

abbrev addr_a : Bytes
addr_a = b'a' ∷ b'1' ∷ []

abbrev addr_b : Bytes
addr_b = b'b' ∷ b'2' ∷ []

abbrev message : CentersProto
message = record empty_centers {
  from_center_addr = addr_b;
  center_action = leader_confirm;
  center_status = leading;
  start_time = 3;
  lc_start_time = 3;
  logical_clock = 1;
  leader_center = addr_b;
}

abbrev ping : CentersProto
ping = record message { center_action = follower_ping }

-- The center `a1`, whose peers answer with `message`, or with a ping.
abbrev env_of : CentersProto → Env
env_of p = record {
  local_address = addr_a;
  connect = λ addr. pos 5;
  send_ok = λ fd. true;
  recv = λ fd. (pos 100, []);
  serialize_ok = true;
  parse_centers = λ text. some p;
  parse_client = λ text. none;
  parse_cluster = λ text. none;
  created = true;
  cancelled = true;
}

abbrev leader_thread : MessageThread
leader_thread = record { thread = fresh; running = false; queue = some [] }

abbrev center : RpcCenter
center = record {
  center_status = leading;
  start_time = 4;
  leader_infos = infos_of message;
  other_centers = (addr_b, record zeroed { center_status = unkonw }) ∷ [];
  election_done_num = 2;
  logical_clock = 1;
  fastleader_election_running = false;
  election_thread = some leader_thread;
  reporter_thread = some fresh;
  leader_thread = some leader_thread;
  load_balancer = construct [];
  center_hash_map = [];
  rpc_server_buf = [];
  effects = [];
}

leader_predicate_iff_example : (leader_predicate 1 (infos_of message) message ≡ accept) ↔ (
    (1 < message.logical_clock)
    ⊎ ((message.logical_clock ≡ 1) × Beats (infos_of message) (infos_of message)))
leader_predicate_iff_example = leader_predicate_iff 1 (infos_of message) message

answers-SameRound : SameRound (env_of message) 1 center.other_centers
answers-SameRound = (
  (λ r ans.
      ap (λ (o : Option CentersProto). elim o [ none ↦ 1 | some q ↦ q.logical_clock ]) (sym ans.4)),
  tt,
)

inquiry_centers-Best_example :
    let f = (inquiry_centers (env_of message) center).0.leader_infos in
    AtLeast f (infos_of message)
    × NoneBeats (env_of message) center.other_centers f
    × OneOf (env_of message) center.other_centers (infos_of message) f
inquiry_centers-Best_example = inquiry_centers-Best (env_of message) center refl answers-SameRound

abbrev two_on_ring : CenterHashMap
two_on_ring = (3, addr_a) ∷ (8, addr_b) ∷ []

should_reporter-Picks_example :
    let p = lower_bound (hash_id addr_a) two_on_ring in
    (TooShort two_on_ring p × (should_reporter addr_a two_on_ring ≡ fault))
    ⊎ (¬ TooShort two_on_ring p × Picks two_on_ring p (should_reporter addr_a two_on_ring))
should_reporter-Picks_example = should_reporter-Picks addr_a two_on_ring

abbrev question : CentersProto
question = record message { center_action = inquiry }

center_processor-SameElection_example :
    SameElection center (record center { effects = closed (pos 6) ∷ [] })
unfolding center_processor
center_processor-SameElection_example =
    center_processor-SameElection (record (env_of ping) { recv = λ fd. (negsuc 0, []) }) (pos 6)
      center (record center { effects = closed (pos 6) ∷ [] }, false) refl

abbrev booted : RpcCenter
booted =
    (init_rpc_center (env_of ping) (λ file default. default) [] (some (addr_b ∷ []))
      (construct_center (env_of ping) 9)).0

init_rpc_center_asks_nobody_example :
    ((inquiry_centers (env_of ping) booted).0.effects ≡ [])
    × ((inquiry_centers (env_of ping) booted).0.leader_infos.leader_center ≡ addr_a)
    × ((inquiry_centers (env_of ping) booted).0.other_centers ≡ booted.other_centers)
    × (length booted.other_centers + 1 < 2 * booted.election_done_num)
init_rpc_center_asks_nobody_example =
    init_rpc_center_asks_nobody (env_of ping) 9 (λ file default. default) [] (addr_b ∷ [])

-- The election that StartCenter starts.
abbrev elected : RpcCenter × Bool
elected = fast_leader_election (env_of ping) (
    set_fast_leader_running true (record booted {
      election_thread = some (record {
        thread = record { thread_running = true; alive = true };
        running = true;
        queue = some [];
      });
    }))

booted_elects : start_fast_leader_election (env_of ping) booted ≡ ok elected
unfolding start_fast_leader_election init_rpc_center read_centers read_line construct_center start
    bytes_eq until_nul regist_new_center
booted_elects = refl

never_leads_example : elected.0.center_status ≢ leading
never_leads_example =
    never_leads (env_of ping) 9 (λ file default. default) [] (addr_b ∷ []) elected.0
      (next here (elects (env_of ping) booted elected booted_elects))
