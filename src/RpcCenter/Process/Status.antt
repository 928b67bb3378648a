-- ===== src/RpcCenter/Process/Status.antt =====
-- What ProcessCenterData, src/rpc_center/rpc_center.cpp, does to the status of a center.
use mathlib.Core.Path.{subst}
use libevrpc.Base.{◌≡◌, sym, ◌∙◌, ◌⊎◌, ◌≢◌, Bool, true, arith, Bool-cases, inl, inr}
use libevrpc.Base.Int.{ℤ}
use libevrpc.Base.Bytes.{bytes_key, until_nul}
use libevrpc.Base.Fault.{bind_ok, ok}
use libevrpc.Proto.{leading, following, CentersProto, CenterAction, proposal, leader_confirm}
use libevrpc.RpcCenter.{RpcCenter, Env, update_center_status}
use libevrpc.RpcCenter.Election.{leader_predicate, is_accept, update_oc_status}
use libevrpc.RpcCenter.Election.Votes.{NotLocal, Follower, update_oc_status-Follower}
use libevrpc.RpcCenter.Process.{
  process_center_data, answer_inquiry, judge_proposal, judge_confirm, take_ping, stop_leader, close,
}

following≢leading : following ≢ leading
following≢leading e = ground arith

action_cases :
    (a : CenterAction)
    → (a ≡ proposal) ⊎ (a ≡ leader_confirm) ⊎ ((a ≢ proposal) × (a ≢ leader_confirm))
action_cases a = ground arith

judge_proposal_cases :
    (env : Env) (fd : ℤ) (p : CentersProto) (c : RpcCenter) (r : RpcCenter × Bool)
    → judge_proposal env fd p c ≡ ok r
    → (r.0 ≡ close fd c)
      ⊎ ((q : RpcCenter × Bool) × (update_oc_status env p c ≡ ok q) × (r.0 ≡ close fd q.0))
unfolding judge_proposal
judge_proposal_cases env fd p c r e =
    elim (Bool-cases (is_accept (leader_predicate c.logical_clock c.leader_infos p))) [
      | inl accepted ↦
          let (q, updated, last) =
            bind_ok (update_oc_status env p c) (λ q. ok (close fd q.0, true)) r (ground arith) in
          inr (q, updated, ground arith)
      | inr rejected ↦ inl (ground arith)
    ]

judge_confirm_cases :
    (env : Env) (fd : ℤ) (p : CentersProto) (c : RpcCenter) (r : RpcCenter × Bool)
    → judge_confirm env fd p c ≡ ok r
    → (r.0.other_centers ≡ c.other_centers)
      × ((r.0.center_status ≡ c.center_status) ⊎ (r.0.center_status ≡ following))
unfolding judge_confirm stop_leader update_center_status
judge_confirm_cases env fd p c r e = ground arith

-- A message changes neither the other centers nor the status, or makes the center follow, or is
-- a proposal that UpdateOCStatus takes.
process_center_data_cases :
    (env : Env) (fd : ℤ) (p : CentersProto) (c : RpcCenter) (r : RpcCenter × Bool)
    → process_center_data env fd p c ≡ ok r
    → ((r.0.other_centers ≡ c.other_centers)
        × ((r.0.center_status ≡ c.center_status) ⊎ (r.0.center_status ≡ following)))
      ⊎ ((q : RpcCenter × Bool) × (update_oc_status env p c ≡ ok q) × (r.0 ≡ close fd q.0))
unfolding process_center_data answer_inquiry take_ping
process_center_data_cases env fd p c r e = elim (action_cases p.center_action) [
  | inl is_proposal ↦ elim (judge_proposal_cases env fd p c r (ground arith)) [
    | inl closed ↦ inl (ground arith)
    | inr taken ↦ inr taken
  ]
  | inr (inl is_confirm) ↦ inl (judge_confirm_cases env fd p c r (ground arith))
  | inr (inr other) ↦ inl (ground arith)
]

pub process_center_data-Follower :
    (env : Env) (fd : ℤ) (p : CentersProto) (c : RpcCenter) (r : RpcCenter × Bool)
    → Follower env.local_address c
    → until_nul p.from_center_addr ≢ env.local_address
    → process_center_data env fd p c ≡ ok r
    → Follower env.local_address r.0
process_center_data-Follower env fd p c r (h, s) ne e =
    let local = env.local_address in
    elim (process_center_data_cases env fd p c r e) [
      | inl (o, st) ↦ (
        subst (NotLocal local) (sym o) h,
        λ l. elim st [
          | inl same ↦ s (sym same ∙ l)
          | inr follows ↦ following≢leading (sym follows ∙ l)
        ],
      )
      | inr (q, updated, last) ↦
          subst (Follower local) (sym last) (update_oc_status-Follower env p c q (h, s) ne updated)
    ]
