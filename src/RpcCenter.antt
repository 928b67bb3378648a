-- ===== src/RpcCenter.antt =====
-- src/rpc_center/rpc_center.{h,cpp}: the state of a center, what surrounds it, and the small
-- operations. The lock guards make each of them one step. The queues of the election and the leader
-- thread stand here by their contents, the oldest first.
pub mod Election
pub mod Ring
pub mod Process
pub mod Requests
pub mod Threads
pub mod Server
pub mod Boot
pub mod Stop
pub mod NeverLeads
pub mod Clock
mod Tests
use libevrpc.Base.{
  ℕ, ◌+◌, ◌%◌, ◌^◌, Bool, true, false, Option, none, some, List, [], ◌∷◌, ◌++◌, ◌==◌, ltb,
  if◌then◌else◌,
}
use libevrpc.Base.Int.{ℤ, pos, negsuc}
use libevrpc.Base.Bytes.{Bytes, bytes_key}
use libevrpc.Base.HashMap.{find, put}
use libevrpc.Util.Thread.{Thread}
use libevrpc.Proto.{
  CenterStatus, looking, following, observing, leading, unkonw, dead, CentersProto,
  ClientWithCenter, CenterResponseCluster, RpcClusterServer,
}
use libevrpc.LoadBalancer.{ConsistentHashLoadBalancer}

pub record OtherCenter : Type 0 where
  pub start_time : ℕ
  pub center_status : CenterStatus
  pub vote_count : ℕ
  pub current_follow_leader_center : Bytes

-- All bytes 0, as after memset or `new OtherCenter()`.
abbrev pub zeroed : OtherCenter
zeroed = record {
  start_time = 0;
  center_status = looking;
  vote_count = 0;
  current_follow_leader_center = [];
}

pub record LeaderInfos : Type 0 where
  pub lc_start_time : ℕ
  pub leader_center : Bytes

-- `queue` is none once Destory has dropped it.
pub record MessageThread : Type 0 where
  pub thread : Thread
  pub running : Bool
  pub queue : Option (List (ℤ × CentersProto))

-- What a center does to its descriptors.
pub data Effect : Type 0 where
  sent_center : ℤ → CentersProto → Effect
  sent_client : ℤ → ClientWithCenter → Effect
  sent_cluster : ℤ → CenterResponseCluster → Effect
  closed : ℤ → Effect

-- HashMap
abbrev pub Others : Type 0
Others = List (Bytes × OtherCenter)

-- The pointers to the threads are NULL (none) until InitRpcCenter. `effects` is the record of what
-- was sent and closed, the latest last; it is no field of the program.
pub record RpcCenter : Type 0 where
  pub center_status : CenterStatus
  pub start_time : ℕ
  pub leader_infos : LeaderInfos
  pub other_centers : Others
  pub election_done_num : ℕ
  pub logical_clock : ℕ
  pub fastleader_election_running : Bool
  pub election_thread : Option MessageThread
  pub reporter_thread : Option Thread
  pub leader_thread : Option MessageThread
  pub load_balancer : ConsistentHashLoadBalancer
  pub center_hash_map : List (ℕ × Bytes)
  pub rpc_server_buf : List (Bytes × RpcClusterServer)
  pub effects : List Effect

-- The operating system, the sockets and the protobuf library, as one call of the program meets
-- them: GetLocalAddress, TcpConnect, whether RpcSend works, the result and text of RpcRecv, whether
-- SerializeToString works, ParseFromString, pthread_create and pthread_cancel.
pub record Env : Type 0 where
  pub local_address : Bytes
  pub connect : Bytes → ℤ
  pub send_ok : ℤ → Bool
  pub recv : ℤ → ℤ × Bytes
  pub serialize_ok : Bool
  pub parse_centers : Bytes → Option CentersProto
  pub parse_client : Bytes → Option ClientWithCenter
  pub parse_cluster : Bytes → Option RpcClusterServer
  pub created : Bool
  pub cancelled : Bool

abbrev pub status_code : CenterStatus → ℕ
status_code looking = 0
status_code following = 1
status_code observing = 2
status_code leading = 3
status_code unkonw = 4
status_code dead = 5

abbrev pub status_eq : CenterStatus → CenterStatus → Bool
status_eq s t = status_code s == status_code t

-- fd <= 0
abbrev pub not_positive : ℤ → Bool
not_positive (pos n) = n == 0
not_positive (negsuc n) = true

abbrev pub add_effects : List Effect → RpcCenter → RpcCenter
add_effects es c = record c { effects = c.effects ++ es }

unfoldable pub update_center_status : CenterStatus → RpcCenter → RpcCenter
update_center_status cs c = record c { center_status = cs }

unfoldable pub update_leading_center_infos : CentersProto → RpcCenter → RpcCenter
update_leading_center_infos p c = record c {
  leader_infos = record { lc_start_time = p.lc_start_time; leader_center = p.leader_center };
}

-- unsigned long, of 64 bits.
unfoldable pub increase_logical_clock : RpcCenter → RpcCenter
increase_logical_clock c = record c { logical_clock = (c.logical_clock + 1) % 2 ^ 64 }

unfoldable pub get_oc_start_time : Bytes → RpcCenter → ℕ
get_oc_start_time center c = elim (find center c.other_centers) [
  | none ↦ 0
  | some oc ↦ oc.start_time
]

unfoldable pub set_fast_leader_running : Bool → RpcCenter → RpcCenter
set_fast_leader_running is_running c = record c { fastleader_election_running = is_running }

unfoldable pub center_is_ready : RpcCenter → Bool
center_is_ready c =
    if status_eq following c.center_status then true else status_eq leading c.center_status

-- SERVER_SET tells servers apart by their address; one that is there stays.
unfoldable pub add_rpc_server_to_buf : RpcClusterServer → RpcCenter → RpcCenter
add_rpc_server_to_buf s c = elim (find s.cluster_server_addr c.rpc_server_buf) [
  | none ↦ record c { rpc_server_buf = put s.cluster_server_addr s c.rpc_server_buf }
  | some t ↦ c
]

-- What BroadcastInfo does for the centers that are left. A failed RpcSend closes the descriptor,
-- and BroadcastInfo closes it again.
broadcast : Env → CentersProto → Others → List Effect
broadcast env p [] = []
broadcast env p ((addr, oc) ∷ rest) =
    let later = broadcast env p rest in
    let fd = env.connect addr in
    if not_positive fd
    then later
    else if env.send_ok fd
    then sent_center fd p ∷ closed fd ∷ later
    else closed fd ∷ closed fd ∷ later

unfoldable pub broadcast_info : Env → CentersProto → RpcCenter → RpcCenter
unfolding broadcast
broadcast_info env p c = add_effects (broadcast env p c.other_centers) c
