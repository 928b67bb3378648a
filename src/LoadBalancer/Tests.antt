-- ===== src/LoadBalancer/Tests.antt =====
-- A ring of two servers, src/rpc_center/load_balancer/consistent_hash_load_balancer.cpp.
use libevrpc.Base.{if◌then◌else◌, ℕ, ◌≡◌, ◌⊎◌, true, false, none, some, [], ◌∷◌, ◌++◌, arith}
use libevrpc.Base.Int.{pos}
use libevrpc.Base.Bytes.{Bytes}
use libevrpc.Base.OrdMap.{find, IsSorted}
use libevrpc.Proto.{RpcClusterServer, register}
use libevrpc.LoadBalancer.{
  ConsistentHashLoadBalancer, hash_id, add_rpc_server, get_rpc_server, get_current_lb_result,
  update_lb_result,
}
use libevrpc.LoadBalancer.Laws.{Serves, get_rpc_server-Serves, hosts, find-add_rpc_server}
use libevrpc.LoadBalancer.Replication.{find-update_lb_result}

abbrev server : Bytes → RpcClusterServer
server addr = record { cluster_action = register; cluster_server_addr = addr; load = 0 }

abbrev ring : ConsistentHashLoadBalancer
ring = record {
  config_file = [];
  virtual_node_num = pos 2;
  vn_map = (5, b'a' ∷ []) ∷ (9, b'b' ∷ []) ∷ [];
}

abbrev no_ring : ConsistentHashLoadBalancer
no_ring = record { config_file = []; virtual_node_num = pos 2; vn_map = [] }

ring-IsSorted : IsSorted ring.vn_map
ring-IsSorted = ((omega arith, tt), (tt, tt))

get_rpc_server-Serves_example :
    ((ring.vn_map ≡ []) × (get_rpc_server (b'c' ∷ []) [] ring ≡ ([], false)))
    ⊎ ((key : ℕ) × (addr : Bytes) × Serves ring.vn_map (hash_id (b'c' ∷ [])) key addr
        × (get_rpc_server (b'c' ∷ []) [] ring ≡ ([] ++ addr ∷ [], true)))
get_rpc_server-Serves_example = get_rpc_server-Serves (b'c' ∷ []) [] ring ring-IsSorted

find-add_rpc_server_example :
    let after = (add_rpc_server (server (b'c' ∷ [])) ring).0.vn_map in
    IsSorted after
    × ((j : ℕ)
        → find j after ≡ elim (find j ring.vn_map) [
          | some w ↦ some w
          | none ↦ (if hosts 2 0 (b'c' ∷ []) j then some (b'c' ∷ []) else none)
        ])
find-add_rpc_server_example = find-add_rpc_server (server (b'c' ∷ [])) ring ring-IsSorted

find-update_lb_result_example :
    find 9 (update_lb_result (get_current_lb_result [] ring).0 no_ring).0.vn_map ≡ some (b'b' ∷ [])
unfolding find
find-update_lb_result_example = find-update_lb_result ring no_ring 9 ring-IsSorted tt
