-- ===== src/DispatchThread/Tests.antt =====
-- A dispatcher with two connections, of which the younger one is served first.
use libevrpc.Base.{ℕ, ◌≡◌, refl, true, none, some, ◌==◌, if◌then◌else◌}
use libevrpc.Base.Int.{pos}
use libevrpc.Base.Fault.{ok}
use libevrpc.DispatchThread.{EioItem, DispatchThread, accept_cb, process_cb}
use libevrpc.DispatchThread.Lost.{process_cb_overwrites}

abbrev items : ℕ → EioItem
items a = record {
  fd = if a == 1 then pos 11 else pos 12;
  active = true;
  next = if a == 1 then some 2 else none;
}

abbrev dispatcher : DispatchThread
dispatcher = record {
  memory = items;
  eio_freelist = none;
  eio_uselist = record { head = some 1; tail = some 2 };
}

process_cb_overwrites_example :
    (t' : DispatchThread) × (t2 : DispatchThread) × (process_cb 2 dispatcher ≡ ok (pos 12, t'))
    × (t'.eio_freelist ≡ some 1)
    × ((t'.memory 1).active ≡ true)
    × (accept_cb none (pos 13) t' ≡ ok t2)
    × ((t2.memory 1).fd ≡ pos 13)
    × ((t2.memory 1).active ≡ true)
process_cb_overwrites_example = process_cb_overwrites 2 1 dispatcher none (pos 13) refl refl
