-- ===== src/RpcCenter/Election/Inquiry.antt =====
-- InquiryCenters of src/rpc_center/rpc_center.cpp.
use mathlib.Core.Path.{subst}
use libevrpc.Base.{
  append-nil, ◌≢◌, ℕ, ◌<◌, ◌≡◌, refl, sym, ◌∙◌, ◌⊎◌, inl, inr, true, false, some, [], ◌∷◌, arith,
  Bool-cases, Option-cases, if◌then◌else◌,
}
use libevrpc.Base.Int.{is_neg}
use libevrpc.Base.Bytes.{Bytes}
use libevrpc.Proto.{unkonw, CenterAction, accept, CentersProto}
use libevrpc.RpcCenter.{LeaderInfos, OtherCenter, Others, RpcCenter, Env, not_positive}
use libevrpc.RpcCenter.Election.{leader_predicate, is_accept}
use libevrpc.RpcCenter.Election.Rounds.{
  inquiry_message, infos_of, candidate, inquire, inquire_one, inquiry_centers,
}
use libevrpc.RpcCenter.Election.Order.{Beats, Beats-trans, Beats-irrefl, leader_predicate_iff}

-- The centers that InquiryCenters asks and that answer, with their answers.
abbrev pub Answers : Env → Bytes → OtherCenter → CentersProto → Type 0
Answers env addr oc r =
    (oc.center_status ≡ unkonw)
    × (not_positive (env.connect addr) ≡ false)
    × (env.send_ok (env.connect addr) ≡ true)
    × (is_neg (env.recv (env.connect addr)).0 ≡ false)
    × (env.parse_centers (env.recv (env.connect addr)).1 ≡ some r)

-- A leader on record after the inquiries is the former one or the candidate of an answer.
abbrev pub OneOf : Env → Others → LeaderInfos → LeaderInfos → Type 0
OneOf env [] lc final = final ≡ lc
OneOf env ((addr, oc) ∷ rest) lc final =
    ((r : CentersProto) × Answers env addr oc r × (final ≡ infos_of (candidate r)))
    ⊎ OneOf env rest lc final

-- Every answer is of the given round, and its candidate does not beat the given leader.
abbrev pub NoneBeats : Env → Others → LeaderInfos → Type 0
NoneBeats env [] final = Unit
NoneBeats env ((addr, oc) ∷ rest) final =
    ((r : CentersProto) → Answers env addr oc r → ¬ Beats (infos_of (candidate r)) final)
    × NoneBeats env rest final

abbrev pub SameRound : Env → ℕ → Others → Type 0
SameRound env clock [] = Unit
SameRound env clock ((addr, oc) ∷ rest) =
    ((r : CentersProto) → Answers env addr oc r → r.logical_clock ≡ clock)
    × SameRound env clock rest

-- `new` is `old` or beats it.
abbrev pub AtLeast : LeaderInfos → LeaderInfos → Type 0
AtLeast new old = (new ≡ old) ⊎ Beats new old

AtLeast-trans : (a b c : LeaderInfos) → AtLeast a b → AtLeast b c → AtLeast a c
AtLeast-trans a b c (inl e) k = rw e k
AtLeast-trans a b c (inr h) (inl e) = inr (rw e at h)
AtLeast-trans a b c (inr h) (inr k) = inr (Beats-trans a b c h k)

not-Beats : (a b c : LeaderInfos) → AtLeast a b → ¬ Beats c b → ¬ Beats c a
not-Beats a b c (inl e) n h = n (rw e at h)
not-Beats a b c (inr k) n h = n (Beats-trans c a b h k)

record_or_new : ℕ → CentersProto → LeaderInfos → LeaderInfos
record_or_new clock r lc =
    if is_accept (leader_predicate clock lc (candidate r)) then infos_of (candidate r) else lc

-- One round: a center answers and is judged, or nothing changes.
inquire_one_cases :
    (env : Env) (clock : ℕ) (m : CentersProto) (addr : Bytes) (oc : OtherCenter) (lc : LeaderInfos)
    → ((r : CentersProto) × Answers env addr oc r
        × ((inquire_one env clock m addr oc lc).leader ≡ record_or_new clock r lc))
      ⊎ (((inquire_one env clock m addr oc lc).leader ≡ lc)
          × ((r : CentersProto) → ¬ Answers env addr oc r))
unfolding inquire_one record_or_new
inquire_one_cases env clock m addr oc lc =
    elim (Option-cases (env.parse_centers (env.recv (env.connect addr)).1)) [
      | inl e ↦ ground arith
      | inr (r, e) ↦ ground arith
    ]

record_or_new-best :
    (clock : ℕ) (r : CentersProto) (lc : LeaderInfos)
    → r.logical_clock ≡ clock
    → AtLeast (record_or_new clock r lc) lc
      × ¬ Beats (infos_of (candidate r)) (record_or_new clock r lc)
      × ((record_or_new clock r lc ≡ lc) ⊎ (record_or_new clock r lc ≡ infos_of (candidate r)))
unfolding record_or_new
record_or_new-best clock r lc e =
    elim (Bool-cases (is_accept (leader_predicate clock lc (candidate r)))) [
      | inl yes' ↦
          let acc : leader_predicate clock lc (candidate r) ≡ accept = is_accept→eq _ yes' in
          rw yes' (
            inr (beats ((leader_predicate_iff clock lc (candidate r)).0 acc)),
            Beats-irrefl _,
            inr refl,
          )
      | inr no' ↦ rw no' (
        inl refl,
        λ b.
            let acc = (leader_predicate_iff clock lc (candidate r)).1 (inr (e, b)) in
            let t : is_accept (leader_predicate clock lc (candidate r)) ≡ true = rw acc in cc,
        inl refl,
      )
    ]
  where
    is_accept→eq : (a : CenterAction) → is_accept a ≡ true → a ≡ accept
    is_accept→eq a h = ground arith

    beats :
        ((clock < r.logical_clock)
          ⊎ ((r.logical_clock ≡ clock) × Beats (infos_of (candidate r)) lc))
        → Beats (infos_of (candidate r)) lc
    beats (inl h) = absurd (omega arith)
    beats (inr h) = h.1

OneOf-from :
    (env : Env) (others : Others) (lc lc' f : LeaderInfos)
    → OneOf env others lc' f
    → (f ≡ lc') ⊎ OneOf env others lc f
OneOf-from env [] lc lc' f h = inl h
OneOf-from env ((addr, oc) ∷ rest) lc lc' f (inl h) = inr (inl h)
OneOf-from env ((addr, oc) ∷ rest) lc lc' f (inr h) = elim (OneOf-from env rest lc lc' f h) [
  | inl e ↦ inl e
  | inr k ↦ inr (inr k)
]

abbrev Best : Env → Others → LeaderInfos → LeaderInfos → Type 0
Best env others lc f = AtLeast f lc × NoneBeats env others f × OneOf env others lc f

answer_unique :
    (env : Env) (addr : Bytes) (oc : OtherCenter) (r r' : CentersProto)
    → Answers env addr oc r
    → Answers env addr oc r'
    → r' ≡ r
answer_unique env addr oc r r' a a' =
    let e = a.4 in let e' = a'.4 in let s : some r' ≡ some r = sym e' ∙ e in cc

Best-answered :
    (env : Env) (addr : Bytes) (oc : OtherCenter) (rest : Others) (r : CentersProto)
    (lc lc1 f : LeaderInfos)
    → Answers env addr oc r
    → AtLeast lc1 lc
    → ¬ Beats (infos_of (candidate r)) lc1
    → (lc1 ≡ lc) ⊎ (lc1 ≡ infos_of (candidate r))
    → Best env rest lc1 f
    → Best env ((addr, oc) ∷ rest) lc f
Best-answered env addr oc rest r lc lc1 f ans up1 worse from (up, none_beats, one_of) = (
  AtLeast-trans f lc1 lc up up1,
  (
    λ r' ans'. not-Beats f lc1 (infos_of (candidate r')) up (
        subst (λ (p : CentersProto). ¬ Beats (infos_of (candidate p)) lc1)
          (sym (answer_unique env addr oc r r' ans ans')) worse),
    none_beats,
  ),
  elim (OneOf-from env rest lc lc1 f one_of) [
    | inr k ↦ inr k
    | inl e ↦ elim from [
      | inl same ↦ inr (subst (λ (l : LeaderInfos). OneOf env rest l f) same one_of)
      | inr new ↦ inl (r, ans, e ∙ new)
    ]
  ],
)

inquire-Best :
    (env : Env) (clock : ℕ) (m : CentersProto) (others : Others) (lc : LeaderInfos)
    → SameRound env clock others
    → Best env others lc (inquire env clock m others lc).leader
unfolding inquire
inquire-Best env clock m [] lc h = (inl refl, tt, refl)
inquire-Best env clock m ((addr, oc) ∷ rest) lc h =
    let lc1 = (inquire_one env clock m addr oc lc).leader in
    let f = (inquire env clock m rest lc1).leader in
    let best = inquire-Best env clock m rest lc1 h.1 in
    elim (inquire_one_cases env clock m addr oc lc) [
      | inl (r, ans, e) ↦
          let (up1, worse, from) = record_or_new-best clock r lc (h.0 r ans) in
          Best-answered env addr oc rest r lc lc1 f ans
            (subst (λ (l : LeaderInfos). AtLeast l lc) (sym e) up1)
            (subst (λ (l : LeaderInfos). ¬ Beats (infos_of (candidate r)) l) (sym e) worse)
            (subst (λ (l : LeaderInfos). (l ≡ lc) ⊎ (l ≡ infos_of (candidate r))) (sym e) from) best
      | inr (e, silent) ↦ (
        subst (λ (l : LeaderInfos). AtLeast f l) e best.0,
        (λ r' ans'. absurd (silent r' ans'), best.1),
        inr (subst (λ (l : LeaderInfos). OneOf env rest l f) e best.2),
      )
    ]

-- When the answers are all of the local round, the leader on record after InquiryCenters is the
-- former one or the candidate of an answer, it is the former one or beats it, and no answering
-- center beats it.
pub inquiry_centers-Best :
    (env : Env) (c : RpcCenter)
    → env.serialize_ok ≡ true
    → SameRound env c.logical_clock c.other_centers
    → let f = (inquiry_centers env c).0.leader_infos in
      AtLeast f c.leader_infos
      × NoneBeats env c.other_centers f
      × OneOf env c.other_centers c.leader_infos f
unfolding inquiry_centers
inquiry_centers-Best env c s h =
    rw s (inquire-Best env c.logical_clock _ c.other_centers c.leader_infos h)

abbrev pub NoneUnknown : Others → Type 0
NoneUnknown [] = Unit
NoneUnknown ((addr, oc) ∷ rest) = (oc.center_status ≢ unkonw) × NoneUnknown rest

inquire_idle :
    (env : Env) (clock : ℕ) (m : CentersProto) (others : Others) (lc : LeaderInfos)
    → NoneUnknown others
    → ((inquire env clock m others lc).leader ≡ lc)
      × ((inquire env clock m others lc).done ≡ [])
      × ((inquire env clock m others lc).centers ≡ others)
unfolding inquire inquire_one
inquire_idle env clock m [] lc h = (refl, refl, refl)
inquire_idle env clock m ((addr, oc) ∷ rest) lc h =
    ground (arith, inquire_idle env clock m rest lc h.1)

-- A center that knows no other center as UNKONW asks nobody and changes nothing.
pub inquiry_centers_idle :
    (env : Env) (c : RpcCenter)
    → NoneUnknown c.other_centers
    → let c' = (inquiry_centers env c).0 in
      (c'.effects ≡ c.effects)
      × (c'.leader_infos ≡ c.leader_infos)
      × (c'.other_centers ≡ c.other_centers)
unfolding inquiry_centers
inquiry_centers_idle env c h = ground (
  arith,
  inquire_idle env c.logical_clock (inquiry_message env c) c.other_centers c.leader_infos h,
  append-nil c.effects,
)
