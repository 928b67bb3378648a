-- ===== src/RpcCenter/Election/Votes.antt =====
-- The votes of UpdateOCStatus, src/rpc_center/rpc_center.cpp.
use mathlib.Core.Path.{subst}
use libevrpc.Base.{ℕ, ◌≤◌, ◌≡◌, sym, ◌⊎◌, ◌≢◌, Bool, arith, Option-cases, inl, inr}
use libevrpc.Base.Bytes.{Bytes, bytes_key, until_nul, bytes_eq_iff}
use libevrpc.Base.HashMap.{find, AllKeys, AllKeys-put, AllKeys-insert, AllKeys-find}
use libevrpc.Base.Fault.{ok}
use libevrpc.Proto.{leading, CentersProto}
use libevrpc.RpcCenter.{
  RpcCenter, Env, Others, update_center_status, update_leading_center_infos, broadcast_info,
}
use libevrpc.RpcCenter.Election.{
  record_sender, store_sender, new_sender, known_sender, count_vote, conclude, update_oc_status,
}

-- No other center goes by the local address.
abbrev pub NotLocal : Bytes → Others → Type 0
NotLocal local others = AllKeys (λ k. until_nul k ≢ local) others

store_sender-NotLocal :
    (local : Bytes) (p : CentersProto) (name : Bytes) (others : Others)
    → NotLocal local others
    → until_nul p.from_center_addr ≢ local
    → NotLocal local (store_sender p name others)
unfolding store_sender
store_sender-NotLocal local p name others h ne =
    elim (Option-cases (find p.from_center_addr others)) [
      | inl f ↦
          rw (f, store_sender) (AllKeys-insert _ p.from_center_addr (new_sender p name) others ne h)
      | inr (oc, f) ↦
          rw (f, store_sender)
            (AllKeys-put _ p.from_center_addr (known_sender p name oc) others ne h)
    ]

-- UpdateOCStatus stops before a name that does not fit, and else stores what is known.
record_sender_ok :
    (p : CentersProto) (others known : Others)
    → record_sender p others ≡ ok known
    → known ≡ store_sender p (until_nul p.leader_center) others
unfolding record_sender
record_sender_ok p others known e = ground arith

count_vote-NotLocal :
    (local : Bytes) (p : CentersProto) (others : Others)
    → NotLocal local others
    → until_nul p.from_center_addr ≢ local
    → NotLocal local (count_vote p others).0
unfolding count_vote
count_vote-NotLocal local p others h ne = elim (Option-cases (find p.leader_center others)) [
  | inl f ↦ rw (f, count_vote) (AllKeys-insert _ p.from_center_addr _ others ne h)
  | inr (oc, f) ↦
      rw (f, count_vote)
        (AllKeys-put _ p.leader_center _ others (AllKeys-find _ p.leader_center oc others h f) h)
]

-- A vote counts only for a leader that is a known other center.
count_vote-zero :
    (local : Bytes) (p : CentersProto) (others : Others)
    → NotLocal local others
    → until_nul p.leader_center ≡ local
    → (count_vote p others).1 ≡ 0
unfolding count_vote
count_vote-zero local p others h e = elim (Option-cases (find p.leader_center others)) [
  | inl f ↦ rw (f, count_vote)
  | inr (oc, f) ↦ absurd (AllKeys-find _ p.leader_center oc others h f e)
]

-- With enough votes the center records the leader, and leads only if the leader is itself.
conclude_status :
    (env : Env) (p : CentersProto) (c : RpcCenter) (r : RpcCenter × Bool)
    → conclude env p c ≡ ok r
    → (r.0.other_centers ≡ c.other_centers)
      × ((r.0.center_status ≡ leading)
          → (c.center_status ≡ leading) ⊎ (until_nul p.leader_center ≡ env.local_address))
unfolding conclude update_center_status update_leading_center_infos broadcast_info
conclude_status env p c r e =
    ground (arith, bytes_eq_iff (until_nul p.leader_center) env.local_address)

-- The center after a vote is stored and counted.
abbrev counted : CentersProto → RpcCenter → RpcCenter
counted p c = record c {
  other_centers = (count_vote p (store_sender p (until_nul p.leader_center) c.other_centers)).0;
}

abbrev votes : CentersProto → RpcCenter → ℕ
votes p c = (count_vote p (store_sender p (until_nul p.leader_center) c.other_centers)).1

update_oc_status_cases :
    (env : Env) (p : CentersProto) (c : RpcCenter) (r : RpcCenter × Bool)
    → update_oc_status env p c ≡ ok r
    → (r.0 ≡ c)
      ⊎ (r.0 ≡ counted p c)
      ⊎ ((conclude env p (counted p c) ≡ ok r)
          × (c.election_done_num ≢ 0)
          × (c.election_done_num ≤ votes p c))
unfolding update_oc_status record_sender
update_oc_status_cases env p c r e = ground arith

abbrev pub Follower : Bytes → RpcCenter → Type 0
Follower local c = NotLocal local c.other_centers × (c.center_status ≢ leading)

counted-NotLocal :
    (local : Bytes) (p : CentersProto) (c : RpcCenter)
    → NotLocal local c.other_centers
    → until_nul p.from_center_addr ≢ local
    → NotLocal local (counted p c).other_centers
counted-NotLocal local p c h ne =
    let name = until_nul p.leader_center in
    count_vote-NotLocal local p (store_sender p name c.other_centers)
      (store_sender-NotLocal local p name c.other_centers h ne) ne

-- UpdateOCStatus never makes a center the leader that does not stand among its own peers, and
-- enters it there only on a message in its own name.
pub update_oc_status-Follower :
    (env : Env) (p : CentersProto) (c : RpcCenter) (r : RpcCenter × Bool)
    → Follower env.local_address c
    → until_nul p.from_center_addr ≢ env.local_address
    → update_oc_status env p c ≡ ok r
    → Follower env.local_address r.0
update_oc_status-Follower env p c r (h, s) ne e =
    let local = env.local_address in
    let h' = counted-NotLocal local p c h ne in
    elim (update_oc_status_cases env p c r e) [
      | inl same ↦ subst (Follower local) (sym same) (h, s)
      | inr (inl one_more) ↦ subst (Follower local) (sym one_more) (h', s)
      | inr (inr (concluded, some_needed, enough)) ↦
          let (o, leads) = conclude_status env p (counted p c) r concluded in
          let name = until_nul p.leader_center in
          let stored = store_sender-NotLocal local p name c.other_centers h ne in
          let none_counted = count_vote-zero local p (store_sender p name c.other_centers) stored in
          (
            subst (NotLocal local) (sym o) h',
            λ l. elim (leads l) [
              | inl before ↦ s before
              | inr own ↦ let z = none_counted own in some_needed (omega arith)
            ],
          )
    ]
