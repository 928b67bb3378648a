-- ===== src/Heartbeat/Cluster.antt =====
-- CenterClusterHeartbeat of src/rpc_server/center_cluster_heartbeat.{h,cpp}: a server registers with
-- a center and reports its load. rand() in a round that fails is an argument of its own.
pub mod Registers
pub mod Reports
use libevrpc.Base.{
  ℕ, ◌+◌, Bool, true, false, Option, none, some, List, [], ◌∷◌, ◌++◌, ◌==◌, if◌then◌else◌, length,
  get_elem?, not, ltb,
}
use libevrpc.Base.Int.{ℤ, pos, negsuc, is_neg}
use libevrpc.Base.Bytes.{Bytes}
use libevrpc.Base.Fault.{Run, ok, fault, ◌>>=◌, deref}
use libevrpc.Communication.{Sent, rpc_send, rpc_recv}
use libevrpc.Proto.{RpcClusterServer, CenterResponseCluster, register, cluster_ping}
use libevrpc.Heartbeat.{
  Env, not_positive, other_lines, random_addr, random_index, received, close_if,
}

-- CENTER2CLUSTER
abbrev pub center2cluster : ℤ
center2cluster = pos 102

-- `sent_frames`: what has been sent, by descriptor; `closes`: the close() calls.
pub record CenterClusterHeartbeat : Type 0 where
  pub center_addrs : List Bytes
  pub reporter_center_addrs : List Bytes
  pub running : Bool
  pub sent_frames : List (ℤ × List Bytes)
  pub closes : List ℤ

abbrev pub ClusterEnv : Type 0
ClusterEnv = Env RpcClusterServer CenterResponseCluster

abbrev pub add_closes : List ℤ → CenterClusterHeartbeat → CenterClusterHeartbeat
add_closes fds h = record h { closes = h.closes ++ fds }

abbrev pub add_sent : ℤ → Sent → CenterClusterHeartbeat → CenterClusterHeartbeat
add_sent fd s h =
    add_closes (close_if s.closed fd)
      (record h { sent_frames = h.sent_frames ++ (fd, s.frames) ∷ [] })

abbrev pub register_message : Bytes → RpcClusterServer
register_message addr = record { cluster_action = register; cluster_server_addr = addr; load = 0 }

abbrev pub ping_message : Bytes → ℕ → RpcClusterServer
ping_message addr load = record {
  cluster_action = cluster_ping;
  cluster_server_addr = addr;
  load = load;
}

-- From RpcRecv on, which has closed the descriptor; it is closed again where the answer is an error
-- or cannot be parsed.
init_received :
    ClusterEnv
    → ℤ
    → CenterClusterHeartbeat
    → Option (ℤ × Bytes)
    → CenterClusterHeartbeat × Option Bool
init_received env fd h none = (h, none)
init_received env fd h (some (id, text)) =
    if is_neg id then (add_closes (fd ∷ fd ∷ []) h, some false) else elim (env.parse text) [
      | none ↦ (add_closes (fd ∷ fd ∷ []) h, some false)
      | some p ↦ (
        record (add_closes (fd ∷ []) h) {
          reporter_center_addrs = h.reporter_center_addrs ++ p.should_reporter_center;
          running = true;
        },
        some true,
      )
    ]

-- `if (RpcSend(conn_fd, CENTER2CLUSTER, rcs_str, false < 0))`: every result but 0 is a failure.
abbrev pub is_nonzero : ℤ → Bool
is_nonzero (pos n) = not (n == 0)
is_nonzero (negsuc n) = true

init_exchange :
    ClusterEnv → Bytes → ℤ → CenterClusterHeartbeat → Run (CenterClusterHeartbeat × Option Bool)
unfolding init_received
init_exchange env local_addr fd h = elim (env.serialize (register_message local_addr)) [
  | none ↦ ok (add_closes (fd ∷ []) h, some false)
  | some text ↦
      let s = rpc_send env.send center2cluster text false in
      let h1 = add_sent fd s h in
      if is_nonzero s.ret
      then ok (add_closes (fd ∷ []) h1, some false)
      else (do got ← received (rpc_recv env.recv [] true); ok (init_received env fd h1 got))
]

-- InitCenterClusterHB on the lines of the file of centers, if there is one; its result is none while
-- it waits.
unfoldable pub init_center_cluster_hb :
    ClusterEnv
    → Bytes
    → Option (List Bytes)
    → CenterClusterHeartbeat
    → Run (CenterClusterHeartbeat × Option Bool)
unfolding init_exchange
init_center_cluster_hb env local_addr none h = ok (h, some false)
init_center_cluster_hb env local_addr (some lines) h =
    let h1 = record h { center_addrs = h.center_addrs ++ other_lines local_addr lines } in
    if length h1.center_addrs == 0 then ok (h1, some false) else (do
      addr ← random_addr env.random h1.center_addrs
      let fd = env.connect addr
      (if not_positive fd then ok (h1, some false) else init_exchange env local_addr fd h1))

-- A round: the load that sysinfo() gives (none for an error), the exchange with the reporter, and
-- the file and the exchange of InitCenterClusterHB, should it be called.
pub record Round : Type 0 where
  pub load : Option ℕ
  pub env : ClusterEnv
  pub again_file : Option (List Bytes)
  pub again : ClusterEnv

-- The constants of Run: the own address, the size of the list when Run started, and should_reinit.
pub record Setup : Type 0 where
  pub local_addr : Bytes
  pub rca_size : ℕ
  pub should_reinit : ℤ

-- reinit_cnt > should_reinit
abbrev pub above : ℕ → ℤ → Bool
above n (pos m) = ltb m n
above n (negsuc m) = true

-- The state, random_index and reinit_cnt after a round, and whether it has ended.
abbrev pub Rounded : Type 0
Rounded = (CenterClusterHeartbeat × ℕ × ℕ) × Bool

reinit : Setup → Round → ℕ → CenterClusterHeartbeat → Run (CenterClusterHeartbeat × Bool × ℕ)
reinit setup r cnt h =
    if above cnt setup.should_reinit
    then (do
      done ← init_center_cluster_hb r.again setup.local_addr r.again_file h
      ok (done.0, elim done.1 [ none ↦ false | some b ↦ true ], 0))
    else ok (h, true, cnt)

-- TcpConnect has failed.
round_failed : Setup → Round → ℕ → ℕ → CenterClusterHeartbeat → Run Rounded
unfolding reinit
round_failed setup r index cnt h = do
  done ← reinit setup r (cnt + 1) h
  next ← random_index r.env.random setup.rca_size
  ok ((done.0, next, done.2), done.1)

unfoldable pub cluster_round : Setup → Round → ℕ → ℕ → CenterClusterHeartbeat → Run Rounded
unfolding round_failed
cluster_round setup r index cnt h = elim r.load [
  | none ↦ ok ((h, index, cnt), true)
  | some load ↦ elim (r.env.serialize (ping_message setup.local_addr load)) [
    | none ↦ ok ((h, index, cnt), true)
    | some text ↦ (do
      addr ← deref (get_elem? h.reporter_center_addrs index)
      let fd = r.env.connect addr
      let s = rpc_send r.env.send center2cluster text true
      (if is_neg fd
          then round_failed setup r index cnt h
          else ok ((add_sent fd s h, index, cnt), true)))
  ]
]

-- `while (running_)`, over the rounds that the thread gets; false while RpcRecv waits.
unfoldable pub cluster_loop :
    Setup → List Round → ℕ → ℕ → CenterClusterHeartbeat → Run (CenterClusterHeartbeat × Bool)
cluster_loop setup [] index cnt h = ok (h, true)
cluster_loop setup (r ∷ rounds) index cnt h =
    let rest : Run (CenterClusterHeartbeat × Bool) = (do
      done ← cluster_round setup r index cnt h
      let more = cluster_loop setup rounds (done.0.1) (done.0.2) (done.0.0)
      (if done.1 then more else ok (done.0.0, false))) in
    if h.running then rest else ok (h, true)

-- Run once InitCenterClusterHB has returned; `random` is the first rand() of Run.
cluster_started :
    Bytes
    → ℤ
    → ℕ
    → List Round
    → CenterClusterHeartbeat × Option Bool
    → Run (CenterClusterHeartbeat × Bool)
cluster_started local_addr should_reinit random rounds (h, none) = ok (h, false)
cluster_started local_addr should_reinit random rounds (h, some false) = ok (h, true)
cluster_started local_addr should_reinit random rounds (h, some true) =
    let setup : Setup = record {
      local_addr = local_addr;
      rca_size = length h.reporter_center_addrs;
      should_reinit = should_reinit;
    } in
    let loop : Run (CenterClusterHeartbeat × Bool) = (do
      index ← random_index random setup.rca_size
      cluster_loop setup rounds index 0 h) in
    if setup.rca_size == 0 then ok (h, true) else loop

unfoldable pub cluster_run :
    ClusterEnv
    → Bytes
    → Option (List Bytes)
    → ℤ
    → ℕ
    → List Round
    → CenterClusterHeartbeat
    → Run (CenterClusterHeartbeat × Bool)
unfolding cluster_started
cluster_run env local_addr file should_reinit random rounds h = do
  started ← init_center_cluster_hb env local_addr file h
  cluster_started local_addr should_reinit random rounds started
