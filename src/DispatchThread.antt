-- ===== src/DispatchThread.antt =====
-- The accept loops of src/rpc_server/dispatch_thread.cpp and src/rpc_center/center_server_thread.cpp,
-- which keep their watchers in the same way: one item of memory for a connection, taken from a free
-- list, put at the end of a list in use, and taken from its front when a connection is done. Memory
-- is a function from addresses to items; malloc() and Accept are arguments.
pub mod Lost
mod Tests
use libevrpc.Base.{
  ℕ, zero, suc, ◌+◌, ◌-◌, Bool, true, false, Option, none, some, ◌==◌, if◌then◌else◌,
}
use libevrpc.Base.Int.{ℤ, is_neg}
use libevrpc.Base.Fault.{Run, ok, fault, ◌>>=◌, deref}

-- EIO_ITEM and CEIO_ITEM: the descriptor of the watcher, and whether it is started.
pub record EioItem : Type 0 where
  pub fd : ℤ
  pub active : Bool
  pub next : Option ℕ

abbrev pub Memory : Type 0
Memory = ℕ → EioItem

abbrev pub write : ℕ → EioItem → Memory → Memory
write a item m b = if a == b then item else m b

abbrev pub set_next : ℕ → Option ℕ → Memory → Memory
set_next a n m = write a (record (m a) { next = n }) m

pub record EioQueue : Type 0 where
  pub head : Option ℕ
  pub tail : Option ℕ

pub record DispatchThread : Type 0 where
  pub memory : Memory
  pub eio_freelist : Option ℕ
  pub eio_uselist : EioQueue

abbrev pub ei_per_alloc : ℕ
ei_per_alloc = 4

-- `ei[i - 1].next = &ei[i]` for the n rounds that are left. The round of i = 0 writes in front of
-- the block at `base`, which is undefined.
link_items : ℕ → ℕ → ℕ → Memory → Run Memory
link_items zero i base m = ok m
link_items (suc n) i base m =
    let rest = link_items n (i + 1) base (set_next (base + i - 1) (some (base + i)) m) in
    if i == 0 then fault else rest

link_eios : ℕ → DispatchThread → Run (DispatchThread × Option ℕ)
unfolding link_items
link_eios base t = do
  linked ← link_items ei_per_alloc 0 base t.memory
  let last = base + (ei_per_alloc - 1)
  ok (
    record t {
      memory = set_next last t.eio_freelist (set_next last none linked);
      eio_freelist = some (base + 1);
    },
    some base,
  )

unfoldable pub new_eio : Option ℕ → DispatchThread → Run (DispatchThread × Option ℕ)
unfolding link_eios
new_eio malloc t = elim t.eio_freelist [
  | some item ↦ ok (record t { eio_freelist = (t.memory item).next }, some item)
  | none ↦ elim malloc [ none ↦ ok (t, none) | some base ↦ link_eios base t ]
]

unfoldable pub free_eio : ℕ → DispatchThread → DispatchThread
free_eio item t = record t {
  memory = set_next item t.eio_freelist t.memory;
  eio_freelist = some item;
}

unfoldable pub push_eio : ℕ → DispatchThread → DispatchThread
push_eio item t =
    let m = set_next item none t.memory in
    elim t.eio_uselist.tail [
      | none ↦ record t { memory = m; eio_uselist = record { head = some item; tail = some item } }
      | some last ↦ record t {
        memory = set_next last (some item) m;
        eio_uselist = record (t.eio_uselist) { tail = some item };
      }
    ]

unfoldable pub pop_eio : DispatchThread → DispatchThread × Option ℕ
pop_eio t = elim t.eio_uselist.head [
  | none ↦ (t, none)
  | some item ↦
      let next = (t.memory item).next in
      let tail : Option ℕ = elim next [ none ↦ none | some n ↦ t.eio_uselist.tail ] in
      (record t { eio_uselist = record { head = next; tail = tail } }, some item)
]

-- ev_io_init and ev_io_start on the item.
abbrev pub start_watcher : ℕ → ℤ → DispatchThread → DispatchThread
start_watcher item cfd t = record t {
  memory = write item (record (t.memory item) { fd = cfd; active = true }) t.memory;
}

abbrev pub stop_watcher : ℕ → DispatchThread → DispatchThread
stop_watcher item t = record t {
  memory = write item (record (t.memory item) { active = false }) t.memory;
}

accepted : ℤ → DispatchThread × Option ℕ → Run DispatchThread
accepted cfd (t, none) = fault
accepted cfd (t, some item) = ok (push_eio item (start_watcher item cfd t))

-- AcceptCb on what Accept gives. An item of NULL is used all the same.
unfoldable pub accept_cb : Option ℕ → ℤ → DispatchThread → Run DispatchThread
unfolding accepted
accept_cb malloc cfd t = if is_neg cfd then ok t else (do got ← new_eio malloc t; accepted cfd got)

-- ProcessCb after the callback has got the descriptor, the first result.
unfoldable pub process_cb : ℕ → DispatchThread → Run (ℤ × DispatchThread)
process_cb watcher t = do
  let popped = pop_eio (stop_watcher watcher t)
  item ← deref popped.1
  ok ((t.memory watcher).fd, free_eio item (popped.0))

-- What InitializeService and InitCenterServer start to watch on the result of TcpListen; `loop_ok`
-- tells whether ev_loop_new works. The descriptor stays open where it does not.
unfoldable pub initialize_service : ℤ → Bool → Option ℤ × Bool
initialize_service listenfd loop_ok =
    if is_neg listenfd
    then (none, false)
    else if loop_ok
    then (some listenfd, true)
    else (none, false)

-- Run: the descriptor that its loop serves, if there is a loop, and the loop that is left.
unfoldable pub dispatch_run : Option ℤ → Option ℤ × Option ℤ
dispatch_run none = (none, none)
dispatch_run (some listenfd) = (some listenfd, none)
