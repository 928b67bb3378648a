-- ===== src/RpcCenter/Process/Pings.antt =====
-- The servers that a follower reports, the FOLLOWER_PING of ProcessCenterData in
-- src/rpc_center/rpc_center.cpp.
use mathlib.Core.List.{Mem, Memᴰ, mem-cons_of_mem}
use mathlib.Core.Logic.{∥∥₁_elim}
use libevrpc.Base.{
  ℕ, ◌≡◌, refl, sym, ap, ◌∙◌, ◌↔◌, inl, inr, true, Option, none, some, List, [], ◌∷◌, if◌then◌else◌,
  arith, Bool-cases, Option-cases,
}
use libevrpc.Base.Int.{ℤ, pos_part}
use libevrpc.Base.Bytes.{Bytes}
use libevrpc.Base.OrdMap.{find, IsSorted, IsSorted-ext}
use libevrpc.Proto.{RpcClusterServer, CentersProto, follower_ping}
use libevrpc.LoadBalancer.{ConsistentHashLoadBalancer, VnHashMap, add_rpc_server}
use libevrpc.LoadBalancer.Laws.{hosts, find-add_rpc_server}
use libevrpc.RpcCenter.{RpcCenter, Env}
use libevrpc.RpcCenter.Process.{add_servers, process_center_data}

-- Whether a server has one of its n virtual nodes at a point of the ring.
abbrev pub Hosts : ℕ → RpcClusterServer → ℕ → Type 0
Hosts n r j = hosts n 0 r.cluster_server_addr j ≡ true

-- No point holds virtual nodes of two addresses.
abbrev pub Apart : ℕ → List RpcClusterServer → Type 0
Apart n rs =
    (r s : RpcClusterServer) (j : ℕ)
    → Mem r rs
    → Mem s rs
    → Hosts n r j
    → Hosts n s j
    → r.cluster_server_addr ≡ s.cluster_server_addr

-- The address of the first server with a virtual node at a point.
host_of : ℕ → List RpcClusterServer → ℕ → Option Bytes
host_of n [] j = none
host_of n (r ∷ rs) j =
    let later = host_of n rs j in
    if hosts n 0 r.cluster_server_addr j then some r.cluster_server_addr else later

find-add_servers :
    (rs : List RpcClusterServer) (lb : ConsistentHashLoadBalancer)
    → IsSorted lb.vn_map
    → IsSorted (add_servers rs lb).vn_map
      × ((j : ℕ)
          → find j (add_servers rs lb).vn_map ≡ elim (find j lb.vn_map) [
            | some w ↦ some w
            | none ↦ host_of (pos_part lb.virtual_node_num) rs j
          ])
unfolding add_servers host_of add_rpc_server
find-add_servers [] lb s = (s, λ j. ground arith)
find-add_servers (r ∷ rs) lb s =
    let (now, here) = find-add_rpc_server r lb s in
    let (end, there) = find-add_servers rs (add_rpc_server r lb).0 now in
    (end, λ j. ground (arith, here j, there j))

host_of-some :
    (n : ℕ) (rs : List RpcClusterServer) (j : ℕ) (a : Bytes)
    → host_of n rs j ≡ some a
    → (r : RpcClusterServer) × Mem r rs × Hosts n r j × (r.cluster_server_addr ≡ a)
unfolding host_of
host_of-some n [] j a h = absurd (ground arith)
host_of-some n (r ∷ rs) j a h = elim (Bool-cases (hosts n 0 r.cluster_server_addr j)) [
  | inl here ↦ (r, ∣ Memᴰ.head refl ∣₁, here, ground arith)
  | inr gone ↦
      let (s, m, h', e) = host_of-some n rs j a (ground arith) in (s, mem-cons_of_mem r m, h', e)
]

host_of-covers :
    (n : ℕ) (rs : List RpcClusterServer) (j : ℕ) (r : RpcClusterServer)
    → Memᴰ r rs
    → Hosts n r j
    → (a : Bytes) × (host_of n rs j ≡ some a)
unfolding host_of
host_of-covers n [] j r m h = elim m [ ]
host_of-covers n (s ∷ rs) j r (Memᴰ.head e) h =
    (s.cluster_server_addr, let here : Hosts n s j = rw (← e) h in ground arith)
host_of-covers n (s ∷ rs) j r (Memᴰ.tail m) h =
    let (a, e) = host_of-covers n rs j r m h in
    elim (Bool-cases (hosts n 0 s.cluster_server_addr j)) [
      | inl here ↦ (s.cluster_server_addr, ground arith)
      | inr gone ↦ (a, ground arith)
    ]

-- A point that a server of one list takes is not free for another list with the same servers.
taken :
    (n : ℕ) (rs ss : List RpcClusterServer) (j : ℕ) (a : Bytes)
    → ((r : RpcClusterServer) → Mem r rs → Mem r ss)
    → host_of n rs j ≡ some a
    → host_of n ss j ≡ none
    → ⊥
taken n rs ss j a sub h free =
    let (r, m, here, e) = host_of-some n rs j a h in
    ∥∥₁_elim (sub r m) (hlevel)
      (λ d. let (b, found) = host_of-covers n ss j r d here in ground arith)

same_host :
    (n : ℕ) (rs ss : List RpcClusterServer) (j : ℕ)
    → ((r : RpcClusterServer) → Mem r rs ↔ Mem r ss)
    → Apart n rs
    → host_of n rs j ≡ host_of n ss j
same_host n rs ss j same apart = elim (Option-cases (host_of n rs j)) [
  | inl none_here ↦ elim (Option-cases (host_of n ss j)) [
    | inl none_there ↦ cc
    | inr (b, there) ↦ absurd (taken n ss rs j b (λ r. (same r).1) there none_here)
  ]
  | inr (a, here) ↦ elim (Option-cases (host_of n ss j)) [
    | inl none_there ↦ absurd (taken n rs ss j a (λ r. (same r).0) here none_there)
    | inr (b, there) ↦
        let (r, m, h, e) = host_of-some n rs j a here in
        let (s, l, k, f) = host_of-some n ss j b there in
        let agree = apart r s j m ((same s).1 l) h k in cc
  ]
]

with_ring : ConsistentHashLoadBalancer → VnHashMap → ConsistentHashLoadBalancer
with_ring lb m = record lb { vn_map = m }

add_servers_only :
    (rs : List RpcClusterServer) (lb : ConsistentHashLoadBalancer)
    → add_servers rs lb ≡ with_ring lb (add_servers rs lb).vn_map
unfolding add_servers add_rpc_server with_ring
add_servers_only [] lb = refl
add_servers_only (r ∷ rs) lb = add_servers_only rs (add_rpc_server r lb).0

-- The ring after the same servers is the same, in whatever order and however often they come.
pub add_servers_order :
    (rs ss : List RpcClusterServer) (lb : ConsistentHashLoadBalancer)
    → IsSorted lb.vn_map
    → ((r : RpcClusterServer) → Mem r rs ↔ Mem r ss)
    → Apart (pos_part lb.virtual_node_num) rs
    → add_servers rs lb ≡ add_servers ss lb
add_servers_order rs ss lb s same apart =
    let n = pos_part lb.virtual_node_num in
    let (t, f) = find-add_servers rs lb s in
    let (u, g) = find-add_servers ss lb s in
    let ring =
      IsSorted-ext _ _ t u (λ j. ground (arith, f j, g j, same_host n rs ss j same apart)) in
    add_servers_only rs lb ∙ ap (with_ring lb) ring ∙ sym (add_servers_only ss lb)

-- A FOLLOWER_PING with the same servers, in whatever order and however often each is named, leaves
-- the same ring and sends the same answer.
pub follower_ping_order :
    (env : Env) (fd : ℤ) (p : CentersProto) (ss : List RpcClusterServer) (c : RpcCenter)
    → p.center_action ≡ follower_ping
    → IsSorted c.load_balancer.vn_map
    → ((r : RpcClusterServer) → Mem r p.server_infos_list ↔ Mem r ss)
    → Apart (pos_part c.load_balancer.virtual_node_num) p.server_infos_list
    → process_center_data env fd p c
      ≡ process_center_data env fd (record p { server_infos_list = ss }) c
unfolding process_center_data
follower_ping_order env fd p ss c e s same apart =
    let order = add_servers_order p.server_infos_list ss c.load_balancer s same apart in
    rw e (rw order refl)
