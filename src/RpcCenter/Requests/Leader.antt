-- ===== src/RpcCenter/Requests/Leader.antt =====
-- What requests leave of the election, src/rpc_center/rpc_center.cpp.
use libevrpc.Base.{◌≡◌, Bool, [], ◌∷◌, arith}
use libevrpc.Base.Int.{ℤ}
use libevrpc.Base.Bytes.{Bytes}
use libevrpc.Base.Fault.{ok}
use libevrpc.RpcCenter.{RpcCenter, Env, add_rpc_server_to_buf, add_effects, sent_center}
use libevrpc.RpcCenter.Requests.{
  process_center_request, process_client_request, process_cluster_request, center_processor,
  reporter_processor, report,
}

-- What requests of any kind leave alone.
abbrev pub SameElection : RpcCenter → RpcCenter → Type 0
SameElection c c' =
    (c'.center_status ≡ c.center_status)
    × (c'.other_centers ≡ c.other_centers)
    × (c'.leader_infos ≡ c.leader_infos)
    × (c'.logical_clock ≡ c.logical_clock)

center_request-SameElection :
    (env : Env) (m : Bytes) (fd : ℤ) (c : RpcCenter) (r : RpcCenter × Bool)
    → process_center_request env m fd c ≡ ok r
    → SameElection c r.0
unfolding process_center_request
center_request-SameElection env m fd c r h = ground arith

client_request-SameElection :
    (env : Env) (m : Bytes) (fd : ℤ) (c : RpcCenter) (r : RpcCenter × Bool)
    → process_client_request env m fd c ≡ ok r
    → SameElection c r.0
unfolding process_client_request
client_request-SameElection env m fd c r h = ground arith

cluster_request-SameElection :
    (env : Env) (m : Bytes) (fd : ℤ) (c : RpcCenter) (r : RpcCenter × Bool)
    → process_cluster_request env m fd c ≡ ok r
    → SameElection c r.0
unfolding process_cluster_request add_rpc_server_to_buf
cluster_request-SameElection env m fd c r h = ground arith

-- CenterProcessor, whatever it receives, leaves the state of the election alone.
pub center_processor-SameElection :
    (env : Env) (fd : ℤ) (c : RpcCenter) (r : RpcCenter × Bool)
    → center_processor env fd c ≡ ok r
    → SameElection c r.0
unfolding center_processor
center_processor-SameElection env fd c r h =
    let m = (env.recv fd).1 in
    ground (
      arith,
      center_request-SameElection env m fd c r,
      client_request-SameElection env m fd c r,
      cluster_request-SameElection env m fd c r,
    )

-- ReporterProcessor too.
pub reporter_processor-SameElection :
    (env : Env) (fd : ℤ) (c : RpcCenter) (r : RpcCenter × Bool)
    → reporter_processor env fd c ≡ ok r
    → SameElection c r.0
unfolding reporter_processor
reporter_processor-SameElection env fd c r h = ground (
  arith,
  center_processor-SameElection env fd (add_effects (sent_center fd (report env c) ∷ []) c) r,
)
