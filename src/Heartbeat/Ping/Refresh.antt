-- ===== src/Heartbeat/Ping/Refresh.antt =====
-- A heartbeat from the client to the list of addresses to refresh:
-- src/rpc_client/rpc_heartbeat_client.cpp and src/rpc_server/rpc_heartbeat_server.cpp.
use libevrpc.Base.{
  ℕ, ◌%◌, ◌^◌, ◌<◌, ◌≡◌, ◌≢◌, refl, ap, Bool, true, false, none, some, List, length, if◌then◌else◌,
  arith, Option-cases, Bool-cases, inl, inr, ◌⊎◌,
}
use libevrpc.Base.Int.{ℤ}
use libevrpc.Base.Bytes.{Bytes, NoNul, bytes_eq, bytes_eq_iff}
use libevrpc.Base.Fault.{ok, fault}
use libevrpc.Communication.{RecvResult, rpc_send_to}
use libevrpc.Communication.Connect.{UdpAddress}
use libevrpc.Communication.RoundTrip.{Delivers}
use libevrpc.Communication.Transfer.{rpc_recv_from-rpc_send_to}
use libevrpc.ConnectionTimerManager.{ConnectionTimerManager, has, insert_refresh_connection_info}
use libevrpc.Heartbeat.Ping.{
  heart_beat_processor, refresh, heartbeat_server_run, init_heartbeat_server,
}

-- The addresses that are to be refreshed in the next round of the wheel.
abbrev pub is_listed : Bytes → ConnectionTimerManager → Bool
is_listed addr m = elim m.refresh_client_list [ none ↦ false | some set ↦ has addr set ]

has_found :
    (addr j : Bytes) (set : List Bytes)
    → has addr set ≡ true
    → has j set ≡ (if bytes_eq addr j then true else has j set)
has_found addr j set h = elim (Bool-cases (bytes_eq addr j)) [
  | inr other ↦ rw other refl
  | inl same ↦ rw (same, ← (bytes_eq_iff addr j).0 same) h
]

is_listed-insert :
    (addr j : Bytes) (m : ConnectionTimerManager)
    → is_listed j (insert_refresh_connection_info addr m)
      ≡ (if bytes_eq addr j then true else is_listed j m)
unfolding insert_refresh_connection_info
is_listed-insert addr j m = elim (Option-cases m.refresh_client_list) [
  | inl e ↦ rw e refl
  | inr (set, e) ↦ elim (Bool-cases (has addr set)) [
    | inr new ↦ rw (e, new) refl
    | inl old ↦ rw (e, old) (has_found addr j set old)
  ]
]

-- Under the premise that each recvfrom() returns the next datagram of the heartbeat, or EAGAIN: an
-- address below 2^31 bytes that has no NUL byte, whose size is no multiple of 511 and whose
-- sendto() calls all work is the only one that HeartBeatProcessor marks to be refreshed, beside
-- those that were.
pub heart_beat_processor-rpc_send_to :
    (addr : Bytes) (works : ℕ → Bool) (c : Bool) (m : ConnectionTimerManager)
    {rest recv : List RecvResult}
    → ((k : ℕ) → works k ≡ true)
    → length addr < 2 ^ 31
    → length addr % 511 ≢ 0
    → NoNul addr
    → Delivers rest (rpc_send_to works addr c).frames recv
    → (m' : ConnectionTimerManager) × (heart_beat_processor false false recv m ≡ ok (some m'))
      × ((j : Bytes) → is_listed j m' ≡ (if bytes_eq addr j then true else is_listed j m))
unfolding heart_beat_processor refresh
heart_beat_processor-rpc_send_to addr works c m all_sent small size nul d =
    let (t, got, same) = rpc_recv_from-rpc_send_to works addr c false all_sent small size d in
    (
      insert_refresh_connection_info addr m,
      rw got (ap (λ (x : Bytes). ok (some (insert_refresh_connection_info x m))) (same.1 nul)),
      λ j. is_listed-insert addr j m,
    )

-- Whatever its socket does, Run of the heartbeat server watches no descriptor: it returns where the
-- initialisation has succeeded, and has no event loop where it has failed.
pub heartbeat_server_run_serves_none :
    (socket : ℤ) (bind_ok : UdpAddress → Bool) (host : ℕ) (loop_null : Bool)
    → (heartbeat_server_run socket bind_ok host loop_null ≡ ok none)
      ⊎ ((heartbeat_server_run socket bind_ok host loop_null ≡ fault)
          × (init_heartbeat_server socket bind_ok host ≡ none))
unfolding heartbeat_server_run
heartbeat_server_run_serves_none socket bind_ok host loop_null = ground arith
