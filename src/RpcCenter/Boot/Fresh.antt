-- ===== src/RpcCenter/Boot/Fresh.antt =====
-- A center after InitRpcCenter, src/rpc_center/rpc_center.cpp.
use libevrpc.Base.{
  ℕ, ◌+◌, ◌*◌, ◌<◌, ◌≡◌, refl, ◌∙◌, some, List, [], ◌∷◌, arith, length, Bool-cases, Option-cases,
  inl, inr, ap,
}
use libevrpc.Base.Int.{ℤ}
use libevrpc.Base.Bytes.{Bytes, bytes_key, until_nul, bytes_eq}
use libevrpc.Base.HashMap.{insert, find, put}
use libevrpc.RpcCenter.{RpcCenter, Env, LeaderInfos, Others}
use libevrpc.RpcCenter.Ring.{regist_new_center}
use libevrpc.RpcCenter.Election.Rounds.{inquiry_centers}
use libevrpc.RpcCenter.Election.Inquiry.{NoneUnknown, inquiry_centers_idle}
use libevrpc.RpcCenter.Boot.{
  listed_center, read_line, read_centers, construct_center, init_rpc_center,
}

NoneUnknown-put :
    (line : Bytes) (others : Others)
    → NoneUnknown others
    → NoneUnknown (put line listed_center others)
unfolding put
NoneUnknown-put line [] h = (ground arith, tt)
NoneUnknown-put line ((k, oc) ∷ m) h = elim (Bool-cases (bytes_eq k line)) [
  | inl same ↦ rw same (ground arith, h.1)
  | inr other ↦ rw other (h.0, NoneUnknown-put line m h.1)
]

NoneUnknown-insert :
    (line : Bytes) (others : Others)
    → NoneUnknown others
    → NoneUnknown (insert line listed_center others)
unfolding insert
NoneUnknown-insert line others h = elim (Option-cases (find line others)) [
  | inl e ↦ rw (e, insert) (NoneUnknown-put line others h)
  | inr (w, e) ↦ rw (e, insert) h
]

-- What reading the list keeps.
abbrev Quiet : RpcCenter → RpcCenter → Type 0
Quiet c c' =
    NoneUnknown c'.other_centers × (c'.effects ≡ c.effects) × (c'.leader_infos ≡ c.leader_infos)

read_line-Quiet :
    (env : Env) (line : Bytes) (c : RpcCenter)
    → NoneUnknown c.other_centers
    → Quiet c (read_line env line c)
unfolding read_line regist_new_center
read_line-Quiet env line c h = elim (Bool-cases (bytes_eq (until_nul line) env.local_address)) [
  | inl here ↦ rw (here, read_line, NoneUnknown) (h, refl, refl)
  | inr other ↦
      rw (other, read_line, NoneUnknown) (NoneUnknown-insert line c.other_centers h, refl, refl)
]

read_centers-Quiet :
    (env : Env) (lines : List Bytes) (c : RpcCenter)
    → NoneUnknown c.other_centers
    → Quiet c (read_centers env lines c)
unfolding read_centers
read_centers-Quiet env [] c h = (h, refl, refl)
read_centers-Quiet env (line ∷ rest) c h =
    let (none_unknown, e, l) = read_line-Quiet env line c h in
    let (later, e', l') = read_centers-Quiet env rest (read_line env line c) none_unknown in
    (later, e' ∙ e, l' ∙ l)

-- After InitRpcCenter with a list of centers, InquiryCenters asks none of them: no descriptor is
-- used, and the center goes on with itself as the leader on record. The votes that an election
-- needs are more than half of all centers, this one included.
pub init_rpc_center_asks_nobody :
    (env : Env) (now : ℕ) (ini : Bytes → ℤ → ℤ) (file : Bytes) (lines : List Bytes)
    → let c = (init_rpc_center env ini file (some lines) (construct_center env now)).0 in
      ((inquiry_centers env c).0.effects ≡ [])
      × ((inquiry_centers env c).0.leader_infos.leader_center ≡ env.local_address)
      × ((inquiry_centers env c).0.other_centers ≡ c.other_centers)
      × (length c.other_centers + 1 < 2 * c.election_done_num)
unfolding init_rpc_center construct_center
init_rpc_center_asks_nobody env now ini file lines =
    let start = construct_center env now in
    let c = (init_rpc_center env ini file (some lines) start).0 in
    let (none_unknown, e, l) = read_centers-Quiet env lines start tt in
    let (e', l', o) = inquiry_centers_idle env c none_unknown in
    (e' ∙ e, ap (λ (i : LeaderInfos). i.leader_center) (l' ∙ l), o, omega arith)
