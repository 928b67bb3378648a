-- ===== src/RpcCenter/Boot.antt =====
-- The constructor and InitRpcCenter of src/rpc_center/rpc_center.cpp. The file of centers is given
-- as its lines (none when access() fails), the configuration as its reader. That the program
-- copies the port into a block one byte too small is not in the model.
pub mod Fresh
pub mod Peers
use libevrpc.Base.{
  ℕ, ◌+◌, ◌/◌, Bool, true, false, Option, none, some, List, [], ◌∷◌, if◌then◌else◌, length,
}
use libevrpc.Base.Int.{ℤ, pos}
use libevrpc.Base.Fault.{Run, ok, fault, ◌>>=◌}
use libevrpc.Base.Bytes.{Bytes, bytes_key, bytes_eq, until_nul}
use libevrpc.Base.HashMap.{insert}
use libevrpc.Util.Thread.{Thread, fresh, start}
use libevrpc.Proto.{looking}
use libevrpc.LoadBalancer.{construct, set_config_file, init_balancer}
use libevrpc.RpcCenter.{OtherCenter, zeroed, MessageThread, RpcCenter, Env}
use libevrpc.RpcCenter.Ring.{regist_new_center}
use libevrpc.RpcCenter.Election.Rounds.{start_fast_leader_election}

unfoldable pub construct_center : Env → ℕ → RpcCenter
construct_center env now = record {
  center_status = looking;
  start_time = now;
  leader_infos = record { lc_start_time = now; leader_center = env.local_address };
  other_centers = [];
  election_done_num = 0;
  logical_clock = 0;
  fastleader_election_running = false;
  election_thread = none;
  reporter_thread = none;
  leader_thread = none;
  load_balancer = construct [];
  center_hash_map = [];
  rpc_server_buf = [];
  effects = [];
}

-- The status UNKONW is set, and memset then clears the whole record.
abbrev pub listed_center : OtherCenter
listed_center = zeroed

-- The body of `while (getline(in, line))`: the own address is skipped.
unfoldable pub read_line : Env → Bytes → RpcCenter → RpcCenter
read_line env line c =
    if bytes_eq (until_nul line) env.local_address
    then c
    else regist_new_center line
        (record c { other_centers = insert line listed_center c.other_centers })

unfoldable pub read_centers : Env → List Bytes → RpcCenter → RpcCenter
unfolding read_line
read_centers env [] c = c
read_centers env (line ∷ rest) c = read_centers env rest (read_line env line c)

abbrev pub new_election_thread : MessageThread
new_election_thread = record { thread = fresh; running = true; queue = some [] }

-- LeaderThread starts with `running_` false.
abbrev pub new_leader_thread : MessageThread
new_leader_thread = record { thread = fresh; running = false; queue = some [] }

unfoldable pub init_rpc_center :
    Env → (Bytes → ℤ → ℤ) → Bytes → Option (List Bytes) → RpcCenter → RpcCenter × Bool
unfolding read_centers
init_rpc_center env ini_get_int config_file none c = (c, false)
init_rpc_center env ini_get_int config_file (some lines) c =
    let c1 = read_centers env lines c in
    (
      record c1 {
        election_done_num = (length c1.other_centers + 1) / 2 + 1;
        election_thread = some new_election_thread;
        reporter_thread = some fresh;
        leader_thread = some new_leader_thread;
        load_balancer =
            (init_balancer ini_get_int (set_config_file config_file (construct config_file))).0;
      },
      true,
    )

-- The center server thread is started, then the election.
unfoldable pub start_center :
    Env → (Bytes → ℤ → ℤ) → Bytes → Option (List Bytes) → RpcCenter → Run (RpcCenter × Bool)
start_center env ini_get_int config_file lines c =
    let (c1, init) = init_rpc_center env ini_get_int config_file lines c in
    if init
    then (if env.created then start_fast_leader_election env c1 else ok (c1, false))
    else ok (c1, false)
