-- ===== src/LoadBalancer/Replication.antt =====
-- The ring that a leader reports and a follower takes over,
-- src/rpc_center/load_balancer/consistent_hash_load_balancer.cpp.
use mathlib.Core.List.{append_assoc, append-nil}
use libevrpc.Base.{ℕ, ◌≡◌, sym, ap, ◌∙◌, none, some, [], ◌∷◌, ◌++◌, arith, All, All-append, All-imp}
use libevrpc.Base.Bytes.{Bytes}
use libevrpc.Base.OrdMap.{find, insert, IsSorted, Above, insert-IsSorted, find-insert, insert-last}
use libevrpc.LoadBalancer.{
  VnHashMap, ConsistentHashLoadBalancer, lb_result_of, get_current_lb_result, insert_all,
  update_lb_result,
}

insert_all-append :
    (m done : VnHashMap)
    → IsSorted m
    → All (λ (e : ℕ × Bytes). Above e.0 m) done
    → insert_all (lb_result_of m) done ≡ done ++ m
unfolding insert_all lb_result_of
insert_all-append [] done s a = sym (append-nil done)
insert_all-append ((k, v) ∷ m) done s a =
    ap (insert_all (lb_result_of m)) (insert-last k v done (All-imp _ _ (λ e h. h.0) done a))
    ∙ insert_all-append m (done ++ (k, v) ∷ []) s.1
        (All-append _ done ((k, v) ∷ []) (All-imp _ _ (λ e h. h.1) done a) (s.0, tt))
    ∙ append_assoc done ((k, v) ∷ []) m

-- A follower whose ring is empty takes over exactly the ring that the leader reports.
pub update-get_current_lb_result :
    (leader follower : ConsistentHashLoadBalancer)
    → IsSorted leader.vn_map
    → follower.vn_map ≡ []
    → (update_lb_result (get_current_lb_result [] leader).0 follower).0.vn_map ≡ leader.vn_map
unfolding get_current_lb_result update_lb_result
update-get_current_lb_result leader follower s e = rw e (insert_all-append leader.vn_map [] s tt)

find-insert_all :
    (j : ℕ) (m done : VnHashMap)
    → IsSorted m
    → IsSorted done
    → find j (insert_all (lb_result_of m) done)
      ≡ elim (find j done) [ some w ↦ some w | none ↦ find j m ]
unfolding insert_all lb_result_of find
find-insert_all j [] done s t = ground arith
find-insert_all j ((k, v) ∷ m) done s t = ground (
  arith,
  find-insert_all j m (insert k v done) s.1 (insert-IsSorted k v done t),
  find-insert k j v done t,
)

-- On any ring a follower keeps its own entries, and takes those that it lacks from the leader.
pub find-update_lb_result :
    (leader follower : ConsistentHashLoadBalancer) (j : ℕ)
    → IsSorted leader.vn_map
    → IsSorted follower.vn_map
    → find j (update_lb_result (get_current_lb_result [] leader).0 follower).0.vn_map
      ≡ elim (find j follower.vn_map) [ some w ↦ some w | none ↦ find j leader.vn_map ]
unfolding get_current_lb_result update_lb_result
find-update_lb_result leader follower j s t = find-insert_all j leader.vn_map follower.vn_map s t
