-- ===== src/LoadBalancer.antt =====
-- src/rpc_center/load_balancer/consistent_hash_load_balancer.{h,cpp}. The lock guards make each
-- method one step. The configuration reader is an argument.
pub mod Laws
pub mod Replication
mod Tests
use libevrpc.Base.{
  ℕ, zero, suc, ◌+◌, ◌%◌, Bool, true, false, Option, none, some, List, [], ◌∷◌, ◌++◌, ◌==◌,
  if◌then◌else◌, length, get_elem?,
}
use libevrpc.Base.Int.{ℤ, pos, negsuc, pos_part}
use libevrpc.Base.Bytes.{Bytes}
use libevrpc.Base.OrdMap.{insert, lower_bound}
use libevrpc.Util.Hash.{mur_mur_hash2}
use libevrpc.Proto.{RpcClusterServer, LoadBalancerMetaData}

-- VN_HASH_MAP
abbrev pub VnHashMap : Type 0
VnHashMap = List (ℕ × Bytes)

pub record ConsistentHashLoadBalancer : Type 0 where
  pub config_file : Bytes
  pub virtual_node_num : ℤ
  pub vn_map : VnHashMap

-- "SHARD-" and "-NODE-"
abbrev pub shard : Bytes
shard = b'S' ∷ b'H' ∷ b'A' ∷ b'R' ∷ b'D' ∷ b'-' ∷ []

abbrev pub node : Bytes
node = b'-' ∷ b'N' ∷ b'O' ∷ b'D' ∷ b'E' ∷ b'-' ∷ []

-- The text whose hash places the i-th virtual node of an address on the ring.
abbrev pub hash_str : Bytes → ℕ → Bytes
hash_str addr i = shard ++ addr ++ node ++ (i % 256) ∷ []

-- MurMurHash2(s.c_str(), s.size()), which reads no byte behind the text and so is never `none`.
unfoldable pub hash_id : Bytes → ℕ
hash_id text = elim (mur_mur_hash2 text (length text)) [ none ↦ 0 | some h ↦ h ]

pub construct : Bytes → ConsistentHashLoadBalancer
construct config_file = record { config_file = config_file; virtual_node_num = pos 20; vn_map = [] }

abbrev is_empty : Bytes → Bool
is_empty [] = true
is_empty (b ∷ s) = false

-- The first argument reads "rpc_center:virtual_node_num" from a file, with a default.
pub init_balancer : (Bytes → ℤ → ℤ) → ConsistentHashLoadBalancer → ConsistentHashLoadBalancer × Bool
init_balancer ini_get_int lb =
    if is_empty lb.config_file
    then (lb, false)
    else (record lb { virtual_node_num = ini_get_int lb.config_file (pos 20) }, true)

pub set_config_file : Bytes → ConsistentHashLoadBalancer → ConsistentHashLoadBalancer
set_config_file file_name lb = record lb { config_file = file_name }

-- `for (int32_t i = 0; i < virtual_node_num_; ++i)`: n rounds are left.
add_nodes : ℕ → ℕ → Bytes → VnHashMap → VnHashMap
add_nodes zero i rpc_server m = m
add_nodes (suc n) i rpc_server m =
    add_nodes n (i + 1) rpc_server (insert (hash_id (hash_str rpc_server i)) rpc_server m)

unfoldable pub add_rpc_server :
    RpcClusterServer → ConsistentHashLoadBalancer → ConsistentHashLoadBalancer × Bool
unfolding add_nodes
add_rpc_server s lb = (
  record lb { vn_map = add_nodes (pos_part lb.virtual_node_num) 0 s.cluster_server_addr lb.vn_map },
  true,
)

-- `out` is the list that the caller passes; an iterator that is not end() is read.
push_at : VnHashMap → ℕ → List Bytes → List Bytes
push_at m i out = elim (get_elem? m i) [ none ↦ out | some (k, v) ↦ out ++ v ∷ [] ]

unfoldable pub get_rpc_server : Bytes → List Bytes → ConsistentHashLoadBalancer → List Bytes × Bool
unfolding push_at
get_rpc_server rpc_client out lb =
    let i = lower_bound (hash_id rpc_client) lb.vn_map in
    if length lb.vn_map == 0
    then (out, false)
    else if i == length lb.vn_map
    then (push_at lb.vn_map 0 out, true)
    else (push_at lb.vn_map i out, true)

lb_result_of : VnHashMap → List LoadBalancerMetaData
lb_result_of [] = []
lb_result_of ((k, v) ∷ m) = record { vid = k; server_addr = v } ∷ lb_result_of m

-- Appends to the list that the caller passes.
unfoldable pub get_current_lb_result :
    List LoadBalancerMetaData → ConsistentHashLoadBalancer → List LoadBalancerMetaData × Bool
unfolding lb_result_of
get_current_lb_result out lb = (out ++ lb_result_of lb.vn_map, true)

insert_all : List LoadBalancerMetaData → VnHashMap → VnHashMap
insert_all [] m = m
insert_all (d ∷ ds) m = insert_all ds (insert d.vid d.server_addr m)

unfoldable pub update_lb_result :
    List LoadBalancerMetaData → ConsistentHashLoadBalancer → ConsistentHashLoadBalancer × Bool
unfolding insert_all
update_lb_result lb_result lb = (record lb { vn_map = insert_all lb_result lb.vn_map }, true)
