-- ===== src/RpcCenter/Process/Confirm.antt =====
-- What ProcessCenterData of src/rpc_center/rpc_center.cpp makes of the messages of the election.
use libevrpc.Base.{◌≤◌, ◌≡◌, true, false, arith}
use libevrpc.Base.Int.{ℤ}
use libevrpc.Base.Fault.{ok}
use libevrpc.Proto.{leader_confirm, CentersProto}
use libevrpc.RpcCenter.{RpcCenter, Env}
use libevrpc.RpcCenter.Election.{leader_predicate, is_accept}
use libevrpc.RpcCenter.Election.Rounds.{infos_of}
use libevrpc.RpcCenter.Election.Order.{leader_predicate_same}
use libevrpc.RpcCenter.Process.{process_center_data, close, start_reporter}

-- A confirmation from the very leader that is on record leaves the center in the state that it is
-- in: it does not become FOLLOWING.
pub confirm_on_record :
    (env : Env) (fd : ℤ) (p : CentersProto) (c : RpcCenter)
    → p.center_action ≡ leader_confirm
    → p.logical_clock ≤ c.logical_clock
    → infos_of p ≡ c.leader_infos
    → (c' : RpcCenter) × (process_center_data env fd p c ≡ ok (c', true))
      × (c'.center_status ≡ c.center_status)
      × (c'.leader_infos ≡ c.leader_infos)
      × (c'.leader_thread ≡ c.leader_thread)
unfolding process_center_data
confirm_on_record env fd p c a h e =
    let refuse : is_accept (leader_predicate c.logical_clock c.leader_infos p) ≡ false =
      rw (leader_predicate_same c.logical_clock c.leader_infos p h e) in
    (close fd (start_reporter env c), ground arith, ground arith, ground arith, ground arith)
