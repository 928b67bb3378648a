-- ===== src/RpcCenter/Election/Order.antt =====
-- LeaderPredicate of src/rpc_center/rpc_center.cpp as a strict order on candidates.
use libevrpc.Base.{ℕ, ◌<◌, ◌≤◌, ◌≡◌, ap, ◌↔◌, ◌⊎◌, inl, inr, true, arith}
use libevrpc.Base.Bytes.{bytes_lt, bytes_lt_irrefl, bytes_lt_trans}
use libevrpc.Proto.{accept, refused, CentersProto}
use libevrpc.RpcCenter.{LeaderInfos}
use libevrpc.RpcCenter.Election.{leader_predicate}
use libevrpc.RpcCenter.Election.Rounds.{infos_of}

-- A leader beats another if it started earlier, or at the same time under a greater name.
abbrev pub Beats : LeaderInfos → LeaderInfos → Type 0
Beats new old =
    (new.lc_start_time < old.lc_start_time)
    ⊎ ((new.lc_start_time ≡ old.lc_start_time)
        × (bytes_lt old.leader_center new.leader_center ≡ true))

pub Beats-irrefl : (a : LeaderInfos) → ¬ Beats a a
Beats-irrefl a (inl h) = omega arith
Beats-irrefl a (inr h) = ground (arith, bytes_lt_irrefl a.leader_center)

pub Beats-trans : (a b c : LeaderInfos) → Beats a b → Beats b c → Beats a c
Beats-trans a b c h k =
    ground (arith, bytes_lt_trans c.leader_center b.leader_center a.leader_center)

-- LeaderPredicate accepts exactly the proposals of a later round, and of the same round those whose
-- leader beats the one on record.
pub leader_predicate_iff :
    (clock : ℕ) (lc : LeaderInfos) (p : CentersProto)
    → (leader_predicate clock lc p ≡ accept)
      ↔ ((clock < p.logical_clock) ⊎ ((p.logical_clock ≡ clock) × Beats (infos_of p) lc))
unfolding leader_predicate
leader_predicate_iff clock lc p = (ground arith, ground arith)

-- A proposal that does not beat the record is refused, so a leader that is on record is never
-- accepted again in its round.
pub leader_predicate_same :
    (clock : ℕ) (lc : LeaderInfos) (p : CentersProto)
    → p.logical_clock ≤ clock
    → infos_of p ≡ lc
    → leader_predicate clock lc p ≡ refused
unfolding leader_predicate
leader_predicate_same clock lc p h e = ground (
  arith,
  ap (λ (i : LeaderInfos). i.lc_start_time) e,
  ap (λ (i : LeaderInfos). i.leader_center) e,
  bytes_lt_irrefl lc.leader_center,
)
