-- ===== src/Heartbeat/Cluster/Reports.antt =====
-- The index into the list of reporters in CenterClusterHeartbeat::Run,
-- src/rpc_server/center_cluster_heartbeat.cpp.
use libevrpc.Base.{
  ℕ, ◌+◌, ◌%◌, ◌≤◌, ◌<◌, ◌≡◌, refl, ◌≢◌, ◌∙◌, inl, inr, Bool, true, false, Option, none, some, List,
  [], ◌∷◌, ◌==◌, arith, Bool-cases, Option-cases, All, length, get_elem?, if◌then◌else◌,
}
use libevrpc.Base.Int.{ℤ, is_neg}
use libevrpc.Base.Bytes.{Bytes}
use libevrpc.Base.Fault.{Run, ok, deref}
use libevrpc.Communication.{rpc_send, rpc_recv}
use libevrpc.Heartbeat.{at-ok, random_index}
use libevrpc.Heartbeat.Cluster.{
  CenterClusterHeartbeat, ClusterEnv, add_sent, ping_message, Round, Setup, above, Rounded, reinit,
  round_failed, cluster_round, cluster_loop, cluster_started, cluster_run, center2cluster,
}
use libevrpc.Heartbeat.Cluster.Registers.{StaysInside, init_center_cluster_hb-Grows}

-- The index is in range, and the size that Run has taken is not above that of the list.
abbrev pub InRange : Setup → ℕ → CenterClusterHeartbeat → Type 0
InRange setup index h =
    (index < length h.reporter_center_addrs)
    × (setup.rca_size ≢ 0)
    × (setup.rca_size ≤ length h.reporter_center_addrs)

abbrev Stays : Setup → Run Rounded → Type 0
Stays setup r = (done : Rounded) × (r ≡ ok done) × InRange setup (done.0.1) (done.0.0)

reinit-ok :
    (setup : Setup) (r : Round) (cnt : ℕ) (h : CenterClusterHeartbeat)
    → StaysInside (rpc_recv r.again.recv [] true)
    → (done : CenterClusterHeartbeat × Bool × ℕ) × (reinit setup r cnt h ≡ ok done)
      × (length h.reporter_center_addrs ≤ length (done.0).reporter_center_addrs)
unfolding reinit
reinit-ok setup r cnt h inside = elim (Bool-cases (above cnt setup.should_reinit)) [
  | inr enough ↦ ((h, true, cnt), rw enough, omega arith)
  | inl again ↦
      let (h', o, e, le) =
        init_center_cluster_hb-Grows r.again setup.local_addr r.again_file h inside in
      ((h', elim o [ none ↦ false | some b ↦ true ], 0), rw (again, e), le)
]

round_failed-Stays :
    (setup : Setup) (r : Round) (index cnt : ℕ) (h : CenterClusterHeartbeat)
    → StaysInside (rpc_recv r.again.recv [] true)
    → InRange setup index h
    → Stays setup (round_failed setup r index cnt h)
unfolding round_failed
round_failed-Stays setup r index cnt h inside (at, some_reporter, small) =
    let (done, e, le) = reinit-ok setup r (cnt + 1) h inside in
    let next = r.env.random % setup.rca_size in
    let drawn : random_index r.env.random setup.rca_size ≡ ok next = ground arith in
    (
      ((done.0, next, done.2), done.1),
      rw (round_failed, e, drawn),
      (omega arith, some_reporter, omega arith),
    )

cluster_round_down :
    (setup : Setup) (r : Round) (index cnt load : ℕ) (h : CenterClusterHeartbeat)
    (text addr : Bytes)
    → r.load ≡ some load
    → r.env.serialize (ping_message setup.local_addr load) ≡ some text
    → deref (get_elem? h.reporter_center_addrs index) ≡ ok addr
    → is_neg (r.env.connect addr) ≡ true
    → cluster_round setup r index cnt h ≡ round_failed setup r index cnt h
unfolding cluster_round
cluster_round_down setup r index cnt load h text addr known works found down = ground arith

cluster_round-Stays :
    (setup : Setup) (r : Round) (index cnt : ℕ) (h : CenterClusterHeartbeat)
    → StaysInside (rpc_recv r.again.recv [] true)
    → InRange setup index h
    → Stays setup (cluster_round setup r index cnt h)
unfolding cluster_round
cluster_round-Stays setup r index cnt h inside range = elim (Option-cases r.load) [
  | inl unknown ↦ (((h, index, cnt), true), rw (cluster_round, unknown), range)
  | inr (load, known) ↦ elim (Option-cases (r.env.serialize (ping_message setup.local_addr load))) [
    | inl fails ↦ (((h, index, cnt), true), rw (cluster_round, known, fails), range)
    | inr (text, works) ↦
        let (addr, found) = at-ok h.reporter_center_addrs index range.0 in
        let fd = r.env.connect addr in
        elim (Bool-cases (is_neg fd)) [
          | inl down ↦
              let (done, e, range') = round_failed-Stays setup r index cnt h inside range in
              (
                done,
                cluster_round_down setup r index cnt load h text addr known works found down ∙ e,
                range',
              )
          | inr up ↦ (
            ((add_sent fd (rpc_send r.env.send center2cluster text true) h, index, cnt), true),
            rw (cluster_round, known, works, found, up),
            range,
          )
        ]
  ]
]

abbrev pub AllInside : List Round → Type 0
AllInside = All (λ (r : Round). StaysInside (rpc_recv r.again.recv [] true))

cluster_loop_step :
    (setup : Setup) (r : Round) (rounds : List Round) (index cnt : ℕ) (h : CenterClusterHeartbeat)
    (done : Rounded)
    → h.running ≡ true
    → cluster_round setup r index cnt h ≡ ok done
    → cluster_loop setup (r ∷ rounds) index cnt h ≡ (
        if done.1
        then cluster_loop setup rounds (done.0.1) (done.0.2) (done.0.0)
        else ok (done.0.0, false))
unfolding cluster_loop
cluster_loop_step setup r rounds index cnt h done on e = ground (arith, on, e)

cluster_loop-ok :
    (setup : Setup) (rounds : List Round) (index cnt : ℕ) (h : CenterClusterHeartbeat)
    → AllInside rounds
    → InRange setup index h
    → (r : CenterClusterHeartbeat × Bool) × (cluster_loop setup rounds index cnt h ≡ ok r)
unfolding cluster_loop
cluster_loop-ok setup [] index cnt h inside range = ((h, true), refl)
cluster_loop-ok setup (r ∷ rounds) index cnt h inside range = elim (Bool-cases h.running) [
  | inr off ↦ ((h, true), rw (cluster_loop, off))
  | inl on ↦
      let (done, e, range') = cluster_round-Stays setup r index cnt h inside.0 range in
      let step = cluster_loop_step setup r rounds index cnt h done on e in
      elim (Bool-cases (done.1)) [
        | inr waits ↦ ((done.0.0, false), step ∙ rw waits)
        | inl more ↦
            let (last, e') =
              cluster_loop-ok setup rounds (done.0.1) (done.0.2) (done.0.0) inside.1 range' in
            (last, step ∙ rw more e')
      ]
]

-- CenterClusterHeartbeat::Run never reads an address out of range, and never divides by 0: whatever
-- the file of centers, the answers, the load and rand() give, and however often it registers again
-- in between, it goes on without a fault, if no RpcRecv reads behind its buffer.
pub cluster_run-ok :
    (env : ClusterEnv) (local_addr : Bytes) (file : Option (List Bytes)) (should_reinit : ℤ)
    (random : ℕ) (rounds : List Round) (h : CenterClusterHeartbeat)
    → StaysInside (rpc_recv env.recv [] true)
    → AllInside rounds
    → (r : CenterClusterHeartbeat × Bool) × (cluster_run env local_addr file should_reinit random
          rounds h
        ≡ ok r)
unfolding cluster_run cluster_started
cluster_run-ok env local_addr file should_reinit random rounds h first inside =
    let (h1, o, e, le) = init_center_cluster_hb-Grows env local_addr file h first in
    let (r, e') = started-ok h1 o in (r, rw e e')
  where
    started-ok :
        (h1 : CenterClusterHeartbeat) (o : Option Bool)
        → (r : CenterClusterHeartbeat × Bool) × (cluster_started local_addr should_reinit random
              rounds
              (h1, o)
            ≡ ok r)
    started-ok h1 none = ((h1, false), refl)
    started-ok h1 (some false) = ((h1, true), refl)
    started-ok h1 (some true) = elim (Bool-cases (length h1.reporter_center_addrs == 0)) [
      | inl empty ↦ ((h1, true), rw empty)
      | inr full ↦
          let size = length h1.reporter_center_addrs in
          let ne : size ≢ 0 = λ z. ground arith in
          let setup : Setup = record {
            local_addr = local_addr;
            rca_size = size;
            should_reinit = should_reinit;
          } in
          let (r, e) =
            cluster_loop-ok setup rounds (random % size) 0 h1 inside
              (omega arith, ne, omega arith) in
          (r, rw full e)
    ]
