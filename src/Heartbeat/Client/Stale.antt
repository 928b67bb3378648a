-- ===== src/Heartbeat/Client/Stale.antt =====
-- What the rounds of CenterClientHeartbeat::Run change, src/rpc_client/center_client_heartbeat.cpp.
use libevrpc.Base.{
  ◌≡◌, refl, ◌≢◌, ◌∙◌, ap, sym, inl, inr, Bool, true, false, Option, none, some, List, [], ◌∷◌,
  ◌++◌, append-nil, arith, Bool-cases, Option-cases, All, length,
}
use libevrpc.Base.Int.{ℤ, is_neg}
use libevrpc.Base.Bytes.{Bytes}
use libevrpc.Base.Fault.{ok}
use libevrpc.Communication.{rpc_send, rpc_recv, RecvRun, returned, waiting, overrun}
use libevrpc.Proto.{update_server_info}
use libevrpc.Heartbeat.{received, random_addr-ok, not_positive, close_if}
use libevrpc.Heartbeat.Client.{
  CenterClientHeartbeat, ClientEnv, update_center_addrs, update_server_addrs, round_answer,
  round_received, client_round, client_loop, request_of, center2client, add_closes,
}

-- RpcRecv waits, or returns no error.
abbrev pub IsReceived : RecvRun → Type 0
IsReceived (returned id text c) = is_neg id ≡ false
IsReceived (waiting text) = Unit
IsReceived overrun = ⊥

abbrev pub SameAddrs : CenterClientHeartbeat → CenterClientHeartbeat → Type 0
SameAddrs h h' =
    (h'.center_addrs ≡ h.center_addrs)
    × (h'.updatecenter_addrs ≡ h.updatecenter_addrs)
    × (h'.cluster_server_addrs ≡ h.cluster_server_addrs)

round_received-SameAddrs :
    (env : ClientEnv) (fd : ℤ) (h : CenterClientHeartbeat) (r : RecvRun)
    → IsReceived r
    → (got : Option (ℤ × Bytes)) × (received r ≡ ok got)
      × SameAddrs h (round_received env fd h got).0
unfolding round_received round_answer update_center_addrs update_server_addrs
round_received-SameAddrs env fd h (returned id text c) e = (
  some (id, text),
  refl,
  rw e (refl, append-nil h.updatecenter_addrs, append-nil h.cluster_server_addrs),
)
round_received-SameAddrs env fd h (waiting text) e = (none, refl, (refl, refl, refl))
round_received-SameAddrs env fd h overrun e = absurd e

client_round-SameAddrs :
    (env : ClientEnv) (h : CenterClientHeartbeat)
    → length h.center_addrs ≢ 0
    → IsReceived (rpc_recv env.recv [] true)
    → (r : CenterClientHeartbeat × Bool) × (client_round env h ≡ ok r) × SameAddrs h (r.0)
unfolding client_round
client_round-SameAddrs env h some_center got =
    let (addr, found) = random_addr-ok env.random h.center_addrs some_center in
    let (answer, e, same) = round_received-SameAddrs env (env.connect addr) h _ got in
    let fd = env.connect addr in
    elim (Option-cases (env.serialize (request_of update_server_info))) [
      | inl fails ↦ ((h, true), rw (client_round, fails), (refl, refl, refl))
      | inr (text, works) ↦ elim (Bool-cases (not_positive fd)) [
        | inl down ↦ (
          (add_closes (fd ∷ []) h, true),
          rw (client_round, works, found, down),
          (refl, refl, refl),
        )
        | inr up ↦
            let s = rpc_send env.send center2client text false in
            elim (Bool-cases (is_neg s.ret)) [
              | inl unsent ↦ (
                (add_closes (close_if s.closed fd ++ fd ∷ []) h, true),
                rw (client_round, works, found, up, unsent),
                (refl, refl, refl),
              )
              | inr done ↦ (
                round_received env fd h answer,
                rw (client_round, works, found, up, done, e),
                same,
              )
            ]
      ]
    ]

abbrev AllReceived : List ClientEnv → Type 0
AllReceived = All (λ (env : ClientEnv). IsReceived (rpc_recv env.recv [] true))

client_loop_next :
    (env : ClientEnv) (envs : List ClientEnv) (h h1 : CenterClientHeartbeat)
    → h.running ≡ true
    → client_round env h ≡ ok (h1, true)
    → client_loop (env ∷ envs) h ≡ client_loop envs h1
unfolding client_loop
client_loop_next env envs h h1 on e = ground (arith, on, e)

client_loop_last :
    (env : ClientEnv) (envs : List ClientEnv) (h h1 : CenterClientHeartbeat)
    → h.running ≡ true
    → client_round env h ≡ ok (h1, false)
    → client_loop (env ∷ envs) h ≡ ok (h1, false)
unfolding client_loop
client_loop_last env envs h h1 on e = ground (arith, on, e)

-- In its rounds a client takes nothing from the answers of the centers: as long as no RpcRecv fails,
-- the loop of CenterClientHeartbeat::Run goes on without a fault, and its lists of centers and of
-- servers are what they were when it started, whatever the answers were.
pub client_loop-SameAddrs :
    (envs : List ClientEnv) (h : CenterClientHeartbeat)
    → length h.center_addrs ≢ 0
    → AllReceived envs
    → (r : CenterClientHeartbeat × Bool) × (client_loop envs h ≡ ok r) × SameAddrs h (r.0)
unfolding client_loop
client_loop-SameAddrs [] h ne got = ((h, true), refl, (refl, refl, refl))
client_loop-SameAddrs (env ∷ envs) h ne got =
    let (done, e, (a, u, s)) = client_round-SameAddrs env h ne got.0 in
    let h1 = done.0 in
    elim (Bool-cases h.running) [
      | inl on ↦ elim (Bool-cases (done.1)) [
        | inl more ↦
            let (r, e', (a', u', s')) =
              client_loop-SameAddrs envs h1 (λ z. ne (ap length (sym a) ∙ z)) got.1 in
            let step = client_loop_next env envs h h1 on (e ∙ ap (λ (b : Bool). ok (h1, b)) more) in
            (r, step ∙ e', (a' ∙ a, u' ∙ u, s' ∙ s))
        | inr waits ↦
            let last =
              client_loop_last env envs h h1 on (e ∙ ap (λ (b : Bool). ok (h1, b)) waits) in
            ((h1, false), last, (a, u, s))
      ]
      | inr off ↦ ((h, true), rw (client_loop, off), (refl, refl, refl))
    ]
