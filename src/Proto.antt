-- ===== src/Proto.antt =====
-- The messages and enumerations of src/center_proto/*.proto. An optional field that is not set
-- reads as its default: 0, the first enumerator, or the empty text. `cpu_used`, a float that no
-- code sets or reads, and `connection_num`, likewise unused, are left out.
use libevrpc.Base.{ℕ, List, []}
use libevrpc.Base.Bytes.{Bytes}

pub data CenterStatus : Type 0 where
  looking following observing leading unkonw dead : CenterStatus

pub data CenterAction : Type 0 where
  inquiry proposal leader_confirm accept refused : CenterAction
  follower_ping leader_ping_response center_reporter : CenterAction

pub data ClusterAction : Type 0 where
  register cluster_ping : ClusterAction

pub data ResponseClusterAction : Type 0 where
  cluster_resp center_not_ready : ResponseClusterAction

pub data ClientClusterAction : Type 0 where
  client_init_req update_server_info center_resp_ok center_resp_err : ClientClusterAction

pub record RpcClusterServer : Type 0 where
  pub cluster_action : ClusterAction
  pub cluster_server_addr : Bytes
  pub load : ℕ

pub record CenterResponseCluster : Type 0 where
  pub center_response_action : ResponseClusterAction
  pub should_reporter_center : List Bytes

pub record ClientWithCenter : Type 0 where
  pub from_addr : Bytes
  pub client_center_action : ClientClusterAction
  pub should_communicate_center : List Bytes
  pub cluster_server_list : List Bytes

pub record LoadBalancerMetaData : Type 0 where
  pub vid : ℕ
  pub server_addr : Bytes

pub record CentersProto : Type 0 where
  pub from_center_addr : Bytes
  pub center_status : CenterStatus
  pub center_action : CenterAction
  pub start_time : ℕ
  pub lc_start_time : ℕ
  pub logical_clock : ℕ
  pub leader_center : Bytes
  pub server_infos_list : List RpcClusterServer
  pub lb_result : List LoadBalancerMetaData

-- A message of which no field is set.
abbrev pub empty_centers : CentersProto
empty_centers = record {
  from_center_addr = [];
  center_status = looking;
  center_action = inquiry;
  start_time = 0;
  lc_start_time = 0;
  logical_clock = 0;
  leader_center = [];
  server_infos_list = [];
  lb_result = [];
}

abbrev pub empty_client : ClientWithCenter
empty_client = record {
  from_addr = [];
  client_center_action = client_init_req;
  should_communicate_center = [];
  cluster_server_list = [];
}
