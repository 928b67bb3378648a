-- ===== src/LoadBalancer/Laws.antt =====
-- Placement on the ring, src/rpc_center/load_balancer/consistent_hash_load_balancer.cpp.
use libevrpc.Base.{
  ℕ, zero, suc, ◌+◌, ◌≤◌, ◌<◌, ◌≡◌, refl, ap, ◌≢◌, ◌⊎◌, inl, inr, Bool, true, false, none, some,
  List, [], ◌∷◌, ◌++◌, ◌==◌, if◌then◌else◌, length, get_elem?, arith, Option-cases, Bool-cases,
}
use libevrpc.Base.Int.{pos_part}
use libevrpc.Base.Bytes.{Bytes}
use libevrpc.Base.OrdMap.{
  find, insert, lower_bound, IsSorted, insert-IsSorted, find-insert, insert_found,
  lower_bound_cases, find-Above,
}
use libevrpc.Proto.{RpcClusterServer}
use libevrpc.LoadBalancer.{
  VnHashMap, ConsistentHashLoadBalancer, hash_id, hash_str, add_nodes, add_rpc_server, push_at,
  get_rpc_server,
}

-- The entry that serves a point of the ring: the least key that is not below it, or the least key
-- of all if the point lies above every key.
abbrev pub Serves : VnHashMap → ℕ → ℕ → Bytes → Type 0
Serves m point key addr =
    (find key m ≡ some addr)
    × (((point ≤ key) × ((j : ℕ) → point ≤ j → j < key → find j m ≡ none))
        ⊎ (((j : ℕ) → point ≤ j → find j m ≡ none) × ((j : ℕ) → j < key → find j m ≡ none)))

first-Serves :
    (m : VnHashMap) (point : ℕ)
    → IsSorted m
    → length m ≢ 0
    → ((j : ℕ) → point ≤ j → find j m ≡ none)
    → (key : ℕ) × (addr : Bytes) × (get_elem? m 0 ≡ some (key, addr)) × Serves m point key addr
unfolding find
first-Serves [] point s ne none_above = absurd (ne refl)
first-Serves ((k, v) ∷ m) point s ne none_above =
    (k, v, refl, (ground arith, inr (none_above, λ j h. ground (arith, find-Above j k m s.0))))

get_elem?-lt : {A : Type 0} {a : A} (m : List A) (i : ℕ) → get_elem? m i ≡ some a → i < length m
get_elem?-lt [] i h = cc
get_elem?-lt (x ∷ m) zero h = omega arith
get_elem?-lt (x ∷ m) (suc i) h = omega (arith, get_elem?-lt m i h)

get-Serves :
    (m : VnHashMap) (point : ℕ) (out : List Bytes)
    → IsSorted m
    → length m ≢ 0
    → (key : ℕ) × (addr : Bytes) × Serves m point key addr
      × (push_at m (if lower_bound point m == length m then 0 else lower_bound point m) out
          ≡ out ++ addr ∷ [])
unfolding push_at
get-Serves m point out s ne = elim (lower_bound_cases point m s) [
  | inl (at_end, none_above) ↦
      let (k, v, g, serves) = first-Serves m point s ne none_above in (k, v, serves, ground arith)
  | inr (k, v, g, f, h, l) ↦
      (k, v, (f, inl (h, l)), ground (arith, get_elem?-lt m (lower_bound point m) g))
]

empty_of_length : (m : VnHashMap) → length m ≡ 0 → m ≡ []
empty_of_length [] h = refl
empty_of_length (x ∷ m) h = absurd (omega arith)

-- GetRpcServer adds exactly the address that serves the hash of the client, and fails, adding
-- nothing, only while no server is known.
pub get_rpc_server-Serves :
    (client : Bytes) (out : List Bytes) (lb : ConsistentHashLoadBalancer)
    → IsSorted lb.vn_map
    → ((lb.vn_map ≡ []) × (get_rpc_server client out lb ≡ (out, false)))
      ⊎ ((key : ℕ) × (addr : Bytes) × Serves lb.vn_map (hash_id client) key addr
          × (get_rpc_server client out lb ≡ (out ++ addr ∷ [], true)))
unfolding get_rpc_server
get_rpc_server-Serves client out lb s = elim (Bool-cases (length lb.vn_map == 0)) [
  | inl none_known ↦ inl (empty_of_length lb.vn_map (ground arith), rw none_known)
  | inr some_known ↦
      let (k, v, serves, e) = get-Serves lb.vn_map (hash_id client) out s (ground arith) in
      inr (k, v, serves, ground arith)
]

add_nodes-IsSorted :
    (n i : ℕ) (a : Bytes) (m : VnHashMap) → IsSorted m → IsSorted (add_nodes n i a m)
unfolding add_nodes
add_nodes-IsSorted zero i a m s = s
add_nodes-IsSorted (suc n) i a m s =
    add_nodes-IsSorted n (i + 1) a _ (insert-IsSorted (hash_id (hash_str a i)) a m s)

-- What is on the ring stays, and keeps its server.
add_nodes_keeps :
    (n i j : ℕ) (a w : Bytes) (m : VnHashMap)
    → IsSorted m
    → find j m ≡ some w
    → find j (add_nodes n i a m) ≡ some w
unfolding add_nodes
add_nodes_keeps zero i j a w m s h = h
add_nodes_keeps (suc n) i j a w m s h =
    add_nodes_keeps n (i + 1) j a w _ (insert-IsSorted (hash_id (hash_str a i)) a m s)
      (ground (arith, find-insert (hash_id (hash_str a i)) j a m s))

insert_covers :
    (k : ℕ) (v : Bytes) (m : VnHashMap)
    → IsSorted m
    → (w : Bytes) × (find k (insert k v m) ≡ some w)
insert_covers k v m s = elim (Option-cases (find k m)) [
  | inl e ↦ (v, ground (arith, find-insert k k v m s))
  | inr (w, e) ↦ (w, ground (arith, find-insert k k v m s))
]

add_nodes_covers :
    (n i j : ℕ) (a : Bytes) (m : VnHashMap)
    → IsSorted m
    → i ≤ j
    → j < i + n
    → (w : Bytes) × (find (hash_id (hash_str a j)) (add_nodes n i a m) ≡ some w)
unfolding add_nodes
add_nodes_covers zero i j a m s le lt = absurd (omega arith)
add_nodes_covers (suc n) i j a m s le lt =
    let s' = insert-IsSorted (hash_id (hash_str a i)) a m s in
    elim (Bool-cases (i == j)) [
      | inl here ↦
          let (w, e) = insert_covers (hash_id (hash_str a i)) a m s in
          let same : i ≡ j = ground arith in
          (w, rw (← same) (add_nodes_keeps n (i + 1) (hash_id (hash_str a i)) a w _ s' e))
      | inr later ↦ add_nodes_covers n (i + 1) j a _ s' (ground arith) (omega arith)
    ]

-- Whether one of n virtual nodes of an address, from the i-th on, lies at a point of the ring.
unfoldable pub hosts : ℕ → ℕ → Bytes → ℕ → Bool
hosts zero i a j = false
hosts (suc n) i a j =
    let later = hosts n (i + 1) a j in if hash_id (hash_str a i) == j then true else later

find-add_nodes :
    (n i j : ℕ) (a : Bytes) (m : VnHashMap)
    → IsSorted m
    → find j (add_nodes n i a m)
      ≡ elim (find j m) [ some w ↦ some w | none ↦ (if hosts n i a j then some a else none) ]
unfolding add_nodes hosts
find-add_nodes zero i j a m s = ground arith
find-add_nodes (suc n) i j a m s =
    let key = hash_id (hash_str a i) in
    ground (
      arith,
      find-insert key j a m s,
      find-add_nodes n (i + 1) j a (insert key a m) (insert-IsSorted key a m s),
    )

-- AddRpcServer keeps the ring sorted. What lies at a point of the ring stays there; an empty point
-- gets the new server exactly when one of its virtual nodes lies there.
pub find-add_rpc_server :
    (r : RpcClusterServer) (lb : ConsistentHashLoadBalancer)
    → IsSorted lb.vn_map
    → let after = (add_rpc_server r lb).0.vn_map in
      let addr = r.cluster_server_addr in
      IsSorted after
      × ((j : ℕ)
          → find j after ≡ elim (find j lb.vn_map) [
            | some w ↦ some w
            | none ↦ (if hosts (pos_part lb.virtual_node_num) 0 addr j then some addr else none)
          ])
unfolding add_rpc_server
find-add_rpc_server r lb s =
    let n = pos_part lb.virtual_node_num in
    let addr = r.cluster_server_addr in
    (add_nodes-IsSorted n 0 addr lb.vn_map s, λ j. find-add_nodes n 0 j addr lb.vn_map s)

add_nodes_again :
    (n i : ℕ) (a : Bytes) (m : VnHashMap)
    → IsSorted m
    → ((j : ℕ) → i ≤ j → j < i + n → (w : Bytes) × (find (hash_id (hash_str a j)) m ≡ some w))
    → add_nodes n i a m ≡ m
unfolding add_nodes
add_nodes_again zero i a m s h = refl
add_nodes_again (suc n) i a m s h =
    let (w, e) = h i (omega arith) (omega arith) in
    rw (insert_found (hash_id (hash_str a i)) a w m s e)
      (add_nodes_again n (i + 1) a m s (λ j le lt. h j (omega arith) (omega arith)))

-- A server that registers again changes nothing.
pub add_rpc_server_idem :
    (r : RpcClusterServer) (lb : ConsistentHashLoadBalancer)
    → IsSorted lb.vn_map
    → (add_rpc_server r (add_rpc_server r lb).0).0 ≡ (add_rpc_server r lb).0
unfolding add_rpc_server
add_rpc_server_idem r lb s =
    let n = pos_part lb.virtual_node_num in
    let addr = r.cluster_server_addr in
    ap (λ (m : VnHashMap). let lb' : ConsistentHashLoadBalancer = record lb { vn_map = m } in lb')
      (add_nodes_again n 0 addr (add_nodes n 0 addr lb.vn_map)
        (add_nodes-IsSorted n 0 addr lb.vn_map s)
        (λ j le lt. add_nodes_covers n 0 j addr lb.vn_map s le lt))
