-- ===== src/Heartbeat/Tests.antt =====
-- Heartbeats with one center and one message.
use libevrpc.Base.{◌≡◌, refl, Bool, true, false, none, some, [], ◌∷◌, arith}
use libevrpc.Base.Int.{pos, negsuc}
use libevrpc.Base.Bytes.{Bytes}
use libevrpc.Base.Fault.{ok}
use libevrpc.Proto.{cluster_resp, empty_client}
use libevrpc.Communication.{closed_by_peer, rpc_recv, recv_loop}
use libevrpc.ConnectionTimerManager.{ConnectionTimerManager}
use libevrpc.Heartbeat.Client.{CenterClientHeartbeat, ClientEnv, new_client_heartbeat, client_loop}
use libevrpc.Heartbeat.Client.Stale.{SameAddrs, client_loop-SameAddrs}
use libevrpc.Heartbeat.Cluster.{CenterClusterHeartbeat, ClusterEnv, Round, cluster_run}
use libevrpc.Heartbeat.Cluster.Reports.{cluster_run-ok}

abbrev center : Bytes
center = b'c' ∷ []

abbrev server : Bytes
server = b's' ∷ []

-- The center closes the connection without an answer.
abbrev client_env : ClientEnv
client_env = record {
  random = 5;
  connect = λ a. pos 4;
  serialize = λ m. some (1 ∷ []);
  send = λ k. true;
  recv = closed_by_peer ∷ [];
  parse = λ text. some empty_client;
}

abbrev client : CenterClientHeartbeat
client = record new_client_heartbeat {
  center_addrs = center ∷ [];
  updatecenter_addrs = center ∷ [];
  cluster_server_addrs = server ∷ [];
  running = true;
}

client_loop-SameAddrs_example :
    (r : CenterClientHeartbeat × Bool) × (client_loop (client_env ∷ client_env ∷ []) client ≡ ok r)
    × SameAddrs client (r.0)
unfolding rpc_recv recv_loop
client_loop-SameAddrs_example =
    client_loop-SameAddrs (client_env ∷ client_env ∷ []) client (λ e. ground arith)
      (refl, (refl, tt))

abbrev cluster_env : ClusterEnv
cluster_env = record {
  random = 7;
  connect = λ a. pos 4;
  serialize = λ m. some (1 ∷ []);
  send = λ k. true;
  recv = closed_by_peer ∷ [];
  parse = λ text.
      some (record { center_response_action = cluster_resp; should_reporter_center = center ∷ [] });
}

-- The reporter cannot be reached.
abbrev bad_round : Round
bad_round = record {
  load = some 3;
  env = record cluster_env { connect = λ a. negsuc 0 };
  again_file = some (center ∷ []);
  again = cluster_env;
}

abbrev cluster : CenterClusterHeartbeat
cluster = record {
  center_addrs = [];
  reporter_center_addrs = [];
  running = false;
  sent_frames = [];
  closes = [];
}

cluster_run-ok_example :
    (r : CenterClusterHeartbeat × Bool) × (cluster_run cluster_env server
        (some (center ∷ []))
        (pos 0)
        3
        (bad_round ∷ bad_round ∷ [])
        cluster
      ≡ ok r)
unfolding rpc_recv recv_loop
cluster_run-ok_example =
    cluster_run-ok cluster_env server (some (center ∷ [])) (pos 0) 3 (bad_round ∷ bad_round ∷ [])
      cluster tt (tt, (tt, tt))

abbrev manager : ConnectionTimerManager
manager = record {
  connection_buf = [];
  connection_del_list = [];
  connection_buf_mutex = 0;
  connection_bucket_mutex = 60;
  connection_dellist_mutex = 0;
  refresh_client_list = some (center ∷ []);
  connection_pool_buckets = λ n. none;
  buf_index = 0;
  bucket_index = 0;
  refresh_interval = 30;
  running = true;
}
