-- ===== src/ConnectionTimerManager/Wheel.antt =====
-- The loop of src/rpc_server/connection_timer_manager.cpp, and timers whose time has not come.
use libevrpc.Base.{
  ℕ, ◌+◌, ◌<◌, ◌≡◌, sym, ◌∙◌, ap, Bool, true, false, if◌then◌else◌, Option, none, some, List, [],
  ◌∷◌, arith, Bool-cases, Option-cases, inl, inr, ltb,
}
use libevrpc.Base.Bytes.{Bytes, bytes_key, bytes_eq}
use libevrpc.Base.HashMap.{find}
use libevrpc.Base.Fault.{Run, ◌>>=◌, ok, fault}
use libevrpc.ConnectionTimerManager.{
  ConnectionTimer, TimerMap, ConnectionTimerManager, generate_bucket_num, or_empty, has, refreshed,
  before_underscore, sweep, turn_bucket, connection_buf_crawler, wheel_round,
}
use libevrpc.ConnectionTimerManager.Crawl.{lookup, find_in}

refreshed-later :
    (refresh : Option (List Bytes)) (now later : ℕ) (a : Bytes) (t : ConnectionTimer)
    → now < t.expire_time
    → now < later
    → now < (refreshed refresh later a t).expire_time
refreshed-later none now later a t h k = h
refreshed-later (some addrs) now later a t h k = elim (Bool-cases (has a addrs)) [
  | inl marked ↦ rw marked k
  | inr other ↦ rw other h
]

sweep-head :
    (refresh : Option (List Bytes)) (now interval : ℕ) (k : Bytes) (t : ConnectionTimer)
    (m : TimerMap)
    → now < t.expire_time
    → 0 < interval
    → sweep refresh now interval ((k, t) ∷ m) ≡ fault
unfolding sweep
sweep-head none now interval k t m h i = ground (arith, h)
sweep-head (some addrs) now interval k t m h i = elim (Option-cases (before_underscore k)) [
  | inl lost ↦ rw (lost, sweep)
  | inr (a, e) ↦
      let live : ltb now (refreshed (some addrs) (now + interval) a t).expire_time ≡ true =
        ground (arith, refreshed-later (some addrs) now (now + interval) a t h (omega arith)) in
      ground (arith, e, live)
]

sweep-tail :
    (refresh : Option (List Bytes)) (now interval : ℕ) (k : Bytes) (t : ConnectionTimer)
    (m : TimerMap)
    → sweep refresh now interval m ≡ fault
    → sweep refresh now interval ((k, t) ∷ m) ≡ fault
unfolding sweep
sweep-tail none now interval k t m e = ground (arith, e)
sweep-tail (some addrs) now interval k t m e = ground (arith, e)

sweep-live :
    (refresh : Option (List Bytes)) (now interval : ℕ) (k : Bytes) (t : ConnectionTimer)
    (m : TimerMap)
    → find k m ≡ some t
    → now < t.expire_time
    → 0 < interval
    → sweep refresh now interval m ≡ fault
unfolding find
sweep-live refresh now interval k t [] f h i = absurd (ground arith)
sweep-live refresh now interval k t ((j, u) ∷ m) f h i = elim (Bool-cases (bytes_eq j k)) [
  | inl same ↦
      let found : u ≡ t = ground (arith, same, f) in
      sweep-head refresh now interval j u m (ground (arith, h, found)) i
  | inr other ↦
      sweep-tail refresh now interval j u m
        (sweep-live refresh now interval k t m (rw other at f) h i)
]

turn_bucket-live :
    (now : ℕ) (c : ConnectionTimerManager) (k : Bytes) (t : ConnectionTimer) (m : TimerMap)
    → find k m ≡ some t
    → now < t.expire_time
    → 0 < c.refresh_interval
    → turn_bucket now c m ≡ fault
unfolding turn_bucket find
turn_bucket-live now c k t [] f h i = absurd (ground arith)
turn_bucket-live now c k t (e ∷ m) f h i =
    rw (sweep-live c.refresh_client_list now c.refresh_interval k t (e ∷ m) f h i)

find-or_empty :
    (k : Bytes) (t : ConnectionTimer) (m : Option TimerMap)
    → find_in k m ≡ some t
    → find k (or_empty m) ≡ some t
find-or_empty k t none f = absurd (ground arith)
find-or_empty k t (some m) f = f

-- A round of the wheel that comes to the bucket of a timer whose time has not come reads the timer
-- after it has been erased from the map, whatever addresses were refreshed.
pub wheel_round-live :
    (now : ℕ) (c c1 : ConnectionTimerManager) (k : Bytes) (t : ConnectionTimer)
    → connection_buf_crawler c ≡ ok c1
    → lookup k c1.connection_pool_buckets ≡ some t
    → generate_bucket_num k ≡ c1.bucket_index
    → now < t.expire_time
    → 0 < c1.refresh_interval
    → wheel_round now c ≡ fault
unfolding wheel_round
wheel_round-live now c c1 k t e l n h i =
    let here = ap (λ j. find_in k (c1.connection_pool_buckets j)) (sym n) ∙ l in
    let found = find-or_empty k t (c1.connection_pool_buckets c1.bucket_index) here in
    rw e (
      turn_bucket-live now c1 k t (or_empty (c1.connection_pool_buckets c1.bucket_index)) found h i)

-- The loop of Run, with the time of each round; the second result tells whether it has ended.
timer_loop : List ℕ → ConnectionTimerManager → Run (ConnectionTimerManager × Bool)
timer_loop [] c = ok (c, false)
timer_loop (now ∷ times) c =
    if c.running then (do c' ← wheel_round now c; timer_loop times c') else ok (c, true)

-- Run, without the start and the end of the thread of the heartbeat server.
unfoldable timer_run : List ℕ → ConnectionTimerManager → Run (ConnectionTimerManager × Bool)
timer_run times c = timer_loop times (record c { bucket_index = 0 })
