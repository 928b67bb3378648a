-- ===== src/RpcCenter/Boot/Peers.antt =====
-- The other centers that InitRpcCenter, src/rpc_center/rpc_center.cpp, takes from the file.
use libevrpc.Base.{ℕ, some, List, [], ◌∷◌, arith, Bool-cases, inl, inr}
use libevrpc.Base.Int.{ℤ}
use libevrpc.Base.Bytes.{Bytes, bytes_key, until_nul, bytes_eq, bytes_eq_iff}
use libevrpc.Base.HashMap.{AllKeys-insert}
use libevrpc.RpcCenter.{RpcCenter, Env}
use libevrpc.RpcCenter.Ring.{regist_new_center}
use libevrpc.RpcCenter.Election.Votes.{Follower}
use libevrpc.RpcCenter.Boot.{
  listed_center, read_line, read_centers, construct_center, init_rpc_center,
}

read_line-Follower :
    (env : Env) (line : Bytes) (c : RpcCenter)
    → Follower env.local_address c
    → Follower env.local_address (read_line env line c)
unfolding read_line regist_new_center
read_line-Follower env line c (h, s) =
    elim (Bool-cases (bytes_eq (until_nul line) env.local_address)) [
      | inl here ↦ rw (here, read_line) (h, s)
      | inr other ↦
          rw (other, read_line)
            (
              AllKeys-insert _ line listed_center c.other_centers
                  (ground (arith, bytes_eq_iff (until_nul line) env.local_address)) h,
              s,
            )
    ]

read_centers-Follower :
    (env : Env) (lines : List Bytes) (c : RpcCenter)
    → Follower env.local_address c
    → Follower env.local_address (read_centers env lines c)
unfolding read_centers
read_centers-Follower env [] c f = f
read_centers-Follower env (line ∷ rest) c f =
    read_centers-Follower env rest (read_line env line c) (read_line-Follower env line c f)

construct_center-Follower :
    (env : Env) (now : ℕ) → Follower env.local_address (construct_center env now)
unfolding construct_center
construct_center-Follower env now = (tt, λ e. ground arith)

pub init_rpc_center-Follower :
    (env : Env) (now : ℕ) (ini_get_int : Bytes → ℤ → ℤ) (file : Bytes) (lines : List Bytes)
    → Follower env.local_address
        (init_rpc_center env ini_get_int file (some lines) (construct_center env now)).0
unfolding init_rpc_center
init_rpc_center-Follower env now ini_get_int file lines =
    read_centers-Follower env lines (construct_center env now) (construct_center-Follower env now)
