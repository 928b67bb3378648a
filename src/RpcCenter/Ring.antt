-- ===== src/RpcCenter/Ring.antt =====
-- CENTER_HASH_MAP of src/rpc_center/rpc_center.cpp: RegistNewCenter, and the two walks that pick
-- centers for a client and for a server. `none` at a position is end(), and reading it a fault.
pub mod Walks
use libevrpc.Base.{
  ℕ, zero, suc, ◌+◌, Bool, true, false, List, [], ◌∷◌, ◌++◌, ◌==◌, ltb, if◌then◌else◌, length,
  get_elem?,
}
use libevrpc.Base.Fault.{Run, ok, fault, ◌>>=◌, deref}
use libevrpc.Base.Bytes.{Bytes}
use libevrpc.Base.OrdMap.{insert, lower_bound}
use libevrpc.LoadBalancer.{hash_id, hash_str}
use libevrpc.RpcCenter.{RpcCenter}

abbrev pub CenterHashMap : Type 0
CenterHashMap = List (ℕ × Bytes)

-- `for (int32_t i = 0; i < 50; ++i)`: n rounds are left.
regist_nodes : ℕ → ℕ → Bytes → CenterHashMap → CenterHashMap
regist_nodes zero i new_center m = m
regist_nodes (suc n) i new_center m =
    regist_nodes n (i + 1) new_center (insert (hash_id (hash_str new_center i)) new_center m)

unfoldable pub regist_new_center : Bytes → RpcCenter → RpcCenter
unfolding regist_nodes
regist_new_center new_center c = record c {
  center_hash_map = regist_nodes 50 0 new_center c.center_hash_map;
}

-- `if (end != iter) ++iter; else iter = begin;`
abbrev pub advance : ℕ → CenterHashMap → ℕ
advance i m = if i == length m then 0 else i + 1

-- The walk for a client: it stops at end(), and leaves out addresses of less than two bytes.
unfoldable pub client_walk : ℕ → ℕ → CenterHashMap → List Bytes → Run (List Bytes)
client_walk zero i m out = ok out
client_walk (suc n) i m out = if i == length m then ok out else (do
  e ← deref (get_elem? m (i + 1))
  client_walk n (i + 1) m (if ltb (length e.1) 2 then out else out ++ e.1 ∷ []))

-- The walk for a server: three rounds, whatever it meets.
unfoldable pub server_walk : ℕ → ℕ → CenterHashMap → List Bytes → Run (List Bytes)
server_walk zero i m out = ok out
server_walk (suc n) i m out = do
  e ← deref (get_elem? m (advance i m))
  server_walk n (advance i m) m (out ++ e.1 ∷ [])

unfoldable pub should_communicate : Bytes → CenterHashMap → Run (List Bytes)
should_communicate client_addr m = client_walk 3 (lower_bound (hash_id client_addr) m) m []

unfoldable pub should_reporter : Bytes → CenterHashMap → Run (List Bytes)
should_reporter server_addr m = server_walk 3 (lower_bound (hash_id server_addr) m) m []
