-- ===== src/RpcCenter/Process/Tests.antt =====
-- A leader that two servers are reported to, src/rpc_center/rpc_center.cpp.
use mathlib.Core.List.{Mem, Memᴰ}
use mathlib.Core.Path.{subst}
use mathlib.Core.Logic.{∥∥₁_elim, ∥∥₁_map}
use libevrpc.Base.{ℕ, ◌≡◌, refl, ◌↔◌, true, none, List, [], ◌∷◌, arith}
use libevrpc.Base.Int.{pos}
use libevrpc.Base.Bytes.{Bytes}
use libevrpc.Proto.{leading, follower_ping, CentersProto, empty_centers, RpcClusterServer, register}
use libevrpc.Util.Hash.{mur_mur_hash2, mur_final, mur_mix}
use libevrpc.LoadBalancer.{hash_id, hash_str}
use libevrpc.LoadBalancer.Laws.{hosts}
use libevrpc.RpcCenter.{RpcCenter, Env}
use libevrpc.RpcCenter.Boot.{construct_center}
use libevrpc.RpcCenter.Process.{process_center_data}
use libevrpc.RpcCenter.Process.Pings.{Hosts, Apart, follower_ping_order}

abbrev server : Bytes → RpcClusterServer
server addr = record { cluster_action = register; cluster_server_addr = addr; load = 0 }

abbrev reported : List RpcClusterServer
reported = server (b'a' ∷ []) ∷ server (b'b' ∷ []) ∷ []

abbrev reported_again : List RpcClusterServer
reported_again = server (b'b' ∷ []) ∷ server (b'a' ∷ []) ∷ server (b'b' ∷ []) ∷ []

abbrev ping : CentersProto
ping = record empty_centers { center_action = follower_ping; server_infos_list = reported }

abbrev env : Env
env = record {
  local_address = b'a' ∷ [];
  connect = λ addr. pos 5;
  send_ok = λ fd. true;
  recv = λ fd. (pos 100, []);
  serialize_ok = true;
  parse_centers = λ text. none;
  parse_client = λ text. none;
  parse_cluster = λ text. none;
  created = true;
  cancelled = true;
}

-- Each server has one virtual node.
abbrev leader : RpcCenter
leader = record (construct_center env 9) {
  center_status = leading;
  load_balancer = record { config_file = []; virtual_node_num = pos 1; vn_map = [] };
}

same-servers : (r : RpcClusterServer) → Mem r reported ↔ Mem r reported_again
same-servers r = (λ m. ∥∥₁_map m there, λ m. ∥∥₁_map m back)
  where
    there : Memᴰ r reported → Memᴰ r reported_again
    there (Memᴰ.head e) = Memᴰ.tail (Memᴰ.head e)
    there (Memᴰ.tail (Memᴰ.head e)) = Memᴰ.head e
    there (Memᴰ.tail (Memᴰ.tail m)) = elim m [ ]

    back : Memᴰ r reported_again → Memᴰ r reported
    back (Memᴰ.head e) = Memᴰ.tail (Memᴰ.head e)
    back (Memᴰ.tail (Memᴰ.head e)) = Memᴰ.head e
    back (Memᴰ.tail (Memᴰ.tail (Memᴰ.head e))) = Memᴰ.tail (Memᴰ.head e)
    back (Memᴰ.tail (Memᴰ.tail (Memᴰ.tail m))) = elim m [ ]

point_a : hash_id (hash_str (b'a' ∷ []) 0) ≡ 2891300227
unfolding hash_id mur_mur_hash2 mur_final mur_mix
point_a = refl

point_b : hash_id (hash_str (b'b' ∷ []) 0) ≡ 988535524
unfolding hash_id mur_mur_hash2 mur_final mur_mix
point_b = refl

at_a : (j : ℕ) → Hosts 1 (server (b'a' ∷ [])) j → j ≡ 2891300227
unfolding hosts
at_a j h = ground (arith, point_a)

at_b : (j : ℕ) → Hosts 1 (server (b'b' ∷ [])) j → j ≡ 988535524
unfolding hosts
at_b j h = ground (arith, point_b)

reported-Apart : Apart 1 reported
reported-Apart r s j m l h k = ∥∥₁_elim m (hlevel) (λ d. ∥∥₁_elim l (hlevel) (λ e. apart d e h k))
  where
    clash :
        {q t : RpcClusterServer}
        → Hosts 1 q j
        → Hosts 1 t j
        → q ≡ server (b'a' ∷ [])
        → t ≡ server (b'b' ∷ [])
        → ⊥
    clash h k e f =
        omega (arith, at_a j (subst (λ x. Hosts 1 x j) e h), at_b j (subst (λ x. Hosts 1 x j) f k))

    apart :
        Memᴰ r reported
        → Memᴰ s reported
        → Hosts 1 r j
        → Hosts 1 s j
        → r.cluster_server_addr ≡ s.cluster_server_addr
    apart (Memᴰ.head e) (Memᴰ.head f) h k = rw e (rw f refl)
    apart (Memᴰ.head e) (Memᴰ.tail (Memᴰ.head f)) h k = absurd (clash h k e f)
    apart (Memᴰ.tail (Memᴰ.head e)) (Memᴰ.head f) h k = absurd (clash k h f e)
    apart (Memᴰ.tail (Memᴰ.head e)) (Memᴰ.tail (Memᴰ.head f)) h k = rw e (rw f refl)
    apart (Memᴰ.tail (Memᴰ.tail m)) l h k = elim m [ ]
    apart m (Memᴰ.tail (Memᴰ.tail l)) h k = elim l [ ]

follower_ping_order_example :
    process_center_data env (pos 6) ping leader
    ≡ process_center_data env (pos 6) (record ping { server_infos_list = reported_again }) leader
follower_ping_order_example =
    follower_ping_order env (pos 6) ping reported_again leader refl tt same-servers reported-Apart
