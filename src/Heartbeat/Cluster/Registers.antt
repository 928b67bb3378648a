-- ===== src/Heartbeat/Cluster/Registers.antt =====
-- CenterClusterHeartbeat::InitCenterClusterHB of src/rpc_server/center_cluster_heartbeat.cpp: the
-- list of reporters only grows.
use libevrpc.Base.{
  ◌≤◌, ◌≡◌, refl, inl, inr, Bool, true, false, Option, none, some, List, [], ◌∷◌, ◌++◌, ◌==◌, arith,
  Bool-cases, Option-cases, length, length-append,
}
use libevrpc.Base.Int.{ℤ, is_neg}
use libevrpc.Base.Bytes.{Bytes}
use libevrpc.Base.Fault.{Run, ok}
use libevrpc.Communication.{rpc_send, rpc_recv, RecvRun, returned, waiting, overrun}
use libevrpc.Heartbeat.{received, random_addr-ok, not_positive, other_lines}
use libevrpc.Heartbeat.Cluster.{
  CenterClusterHeartbeat, ClusterEnv, add_closes, add_sent, register_message, init_received,
  is_nonzero, init_exchange, init_center_cluster_hb, center2cluster,
}

-- RpcRecv does not read behind its buffer.
abbrev pub StaysInside : RecvRun → Type 0
StaysInside (returned id text c) = Unit
StaysInside (waiting text) = Unit
StaysInside overrun = ⊥

-- A result, with a list of reporters that is at least as long.
abbrev pub Grows : CenterClusterHeartbeat → Run (CenterClusterHeartbeat × Option Bool) → Type 0
Grows h r =
    (h' : CenterClusterHeartbeat) × (o : Option Bool) × (r ≡ ok (h', o))
    × (length h.reporter_center_addrs ≤ length h'.reporter_center_addrs)

init_received-le :
    (env : ClusterEnv) (fd : ℤ) (h : CenterClusterHeartbeat) (got : Option (ℤ × Bytes))
    → length h.reporter_center_addrs ≤ length (init_received env fd h got).0.reporter_center_addrs
unfolding init_received
init_received-le env fd h none = omega arith
init_received-le env fd h (some (id, text)) = elim (Bool-cases (is_neg id)) [
  | inl e ↦ rw e (omega arith)
  | inr e ↦ elim (Option-cases (env.parse text)) [
    | inl p ↦ rw (e, p) (omega arith)
    | inr (m, p) ↦
        rw (e, p) (omega (arith, length-append h.reporter_center_addrs m.should_reporter_center))
  ]
]

received-ok : (r : RecvRun) → StaysInside r → (got : Option (ℤ × Bytes)) × (received r ≡ ok got)
received-ok (returned id text c) s = (some (id, text), refl)
received-ok (waiting text) s = (none, refl)
received-ok overrun s = absurd s

init_exchange-Grows :
    (env : ClusterEnv) (local_addr : Bytes) (fd : ℤ) (h : CenterClusterHeartbeat)
    → StaysInside (rpc_recv env.recv [] true)
    → Grows h (init_exchange env local_addr fd h)
unfolding init_exchange
init_exchange-Grows env local_addr fd h inside =
    let (got, e) = received-ok _ inside in
    elim (Option-cases (env.serialize (register_message local_addr))) [
      | inl fails ↦ (add_closes (fd ∷ []) h, some false, rw (init_exchange, fails), omega arith)
      | inr (text, works) ↦
          let s = rpc_send env.send center2cluster text false in
          let h1 = add_sent fd s h in
          elim (Bool-cases (is_nonzero s.ret)) [
            | inl unsent ↦ (
              add_closes (fd ∷ []) h1,
              some false,
              rw (init_exchange, works, unsent),
              omega arith,
            )
            | inr done ↦
                let last = init_received env fd h1 got in
                (last.0, last.1, rw (init_exchange, works, done, e), init_received-le env fd h1 got)
          ]
    ]

pub init_center_cluster_hb-Grows :
    (env : ClusterEnv) (local_addr : Bytes) (file : Option (List Bytes))
    (h : CenterClusterHeartbeat)
    → StaysInside (rpc_recv env.recv [] true)
    → Grows h (init_center_cluster_hb env local_addr file h)
unfolding init_center_cluster_hb
init_center_cluster_hb-Grows env local_addr none h inside = (h, some false, refl, omega arith)
init_center_cluster_hb-Grows env local_addr (some lines) h inside =
    let h1 : CenterClusterHeartbeat = record h {
      center_addrs = h.center_addrs ++ other_lines local_addr lines;
    } in
    elim (Bool-cases (length h1.center_addrs == 0)) [
      | inl empty ↦ (h1, some false, rw empty, omega arith)
      | inr full ↦
          let (addr, found) = random_addr-ok env.random h1.center_addrs (λ z. ground arith) in
          let fd = env.connect addr in
          elim (Bool-cases (not_positive fd)) [
            | inl down ↦ (h1, some false, rw (full, found, down), omega arith)
            | inr up ↦
                let (h', o, e, le) = init_exchange-Grows env local_addr fd h1 inside in
                (h', o, rw (full, found, up) e, le)
          ]
    ]
