-- ===== src/RpcCenter/Election/Elect.antt =====
-- FastLeaderElection and StartFastLeaderElection of src/rpc_center/rpc_center.cpp.
use mathlib.Core.Path.{subst}
use libevrpc.Util.Thread.{start}
use libevrpc.Base.{
  refl, sym, ◌∙◌, ◌⊎◌, ℕ, ◌≡◌, Bool, true, some, [], ◌∷◌, arith, Bool-cases, Option-cases, inl, inr,
}
use libevrpc.Base.Bytes.{Bytes, bytes_key}
use libevrpc.Base.Fault.{ok}
use libevrpc.Proto.{CentersProto}
use libevrpc.RpcCenter.{
  RpcCenter, Env, Others, LeaderInfos, broadcast_info, increase_logical_clock,
  set_fast_leader_running,
}
use libevrpc.RpcCenter.Election.Rounds.{
  inquire, inquiry_centers, proposal_leader_election, fast_leader_election,
  start_fast_leader_election,
}
use libevrpc.RpcCenter.Election.Votes.{NotLocal, Follower}

inquire-NotLocal :
    (env : Env) (local : Bytes) (clock : ℕ) (m : CentersProto) (others : Others) (lc : LeaderInfos)
    → NotLocal local others
    → NotLocal local (inquire env clock m others lc).centers
unfolding inquire
inquire-NotLocal env local clock m [] lc h = tt
inquire-NotLocal env local clock m ((k, oc) ∷ rest) lc h =
    (h.0, inquire-NotLocal env local clock m rest _ h.1)

inquiry_centers-Follower :
    (env : Env) (local : Bytes) (c : RpcCenter)
    → Follower local c
    → Follower local (inquiry_centers env c).0
unfolding inquiry_centers
inquiry_centers-Follower env local c (h, s) = elim (Bool-cases env.serialize_ok) [
  | inl works ↦ rw (works, inquiry_centers) (inquire-NotLocal env local _ _ c.other_centers _ h, s)
  | inr fails ↦ rw (fails, inquiry_centers) (h, s)
]

proposal_leader_election-same :
    (env : Env) (c : RpcCenter)
    → ((proposal_leader_election env c).0.other_centers ≡ c.other_centers)
      × ((proposal_leader_election env c).0.center_status ≡ c.center_status)
unfolding proposal_leader_election increase_logical_clock broadcast_info
proposal_leader_election-same env c = ground arith

fast_leader_election-Follower :
    (env : Env) (local : Bytes) (c : RpcCenter)
    → Follower local c
    → Follower local (fast_leader_election env c).0
unfolding fast_leader_election
fast_leader_election-Follower env local c f =
    let (h, s) = inquiry_centers-Follower env local c f in
    let (o, t) = proposal_leader_election-same env (inquiry_centers env c).0 in
    (subst (NotLocal local) (sym o) h, λ e. s (sym t ∙ e))

-- An election starts with the other centers and the status as they were.
start_cases :
    (env : Env) (c : RpcCenter) (r : RpcCenter × Bool)
    → start_fast_leader_election env c ≡ ok r
    → (c0 : RpcCenter) × (c0.other_centers ≡ c.other_centers)
      × (c0.center_status ≡ c.center_status)
      × ((r.0 ≡ c0) ⊎ (r ≡ fast_leader_election env c0))
unfolding start_fast_leader_election set_fast_leader_running
start_cases env c r e = elim (Bool-cases c.fastleader_election_running) [
  | inl running ↦ (c, refl, refl, inr (ground arith))
  | inr idle ↦ elim (Option-cases c.election_thread) [
    | inl missing ↦ absurd (ground arith)
    | inr (et, found) ↦
        let c1 : RpcCenter = record c {
          election_thread = some (record et { thread = (start env.created et.thread).0 });
        } in
        elim (Bool-cases (start env.created et.thread).1) [
          | inl begun ↦ (set_fast_leader_running true c1, refl, refl, inr (ground arith))
          | inr not_begun ↦ (c1, refl, refl, inl (ground arith))
        ]
  ]
]

pub start_fast_leader_election-Follower :
    (env : Env) (local : Bytes) (c : RpcCenter) (r : RpcCenter × Bool)
    → Follower local c
    → start_fast_leader_election env c ≡ ok r
    → Follower local r.0
start_fast_leader_election-Follower env local c r (h, s) e =
    let (c0, o, t, last) = start_cases env c r e in
    let f : Follower local c0 = (subst (NotLocal local) (sym o) h, λ e. s (sym t ∙ e)) in
    elim last [
      | inl unchanged ↦ subst (Follower local) (sym unchanged) f
      | inr elected ↦
          subst (λ x. Follower local x.0) (sym elected)
            (fast_leader_election-Follower env local c0 f)
    ]
