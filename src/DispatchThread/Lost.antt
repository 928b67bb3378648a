-- ===== src/DispatchThread/Lost.antt =====
-- Which item ProcessCb frees, src/rpc_server/dispatch_thread.cpp, and CenterServerThread::Processor
-- of src/rpc_center/center_server_thread.cpp likewise.
use libevrpc.Base.{
  ℕ, ◌≡◌, refl, inl, inr, true, false, Option, some, arith, Option-cases, ◌==◌, if◌then◌else◌,
}
use libevrpc.Base.Int.{ℤ, is_neg}
use libevrpc.Base.Fault.{ok}
use libevrpc.DispatchThread.{
  DispatchThread, new_eio, free_eio, push_eio, pop_eio, start_watcher, stop_watcher, accepted,
  accept_cb, process_cb,
}

push_eio-memory :
    (item a : ℕ) (t : DispatchThread)
    → (((push_eio item t).memory a).fd ≡ (t.memory a).fd)
      × (((push_eio item t).memory a).active ≡ (t.memory a).active)
unfolding push_eio
push_eio-memory item a t = elim (Option-cases t.eio_uselist.tail) [
  | inl e ↦ rw e (ground arith, ground arith)
  | inr (last, e) ↦ rw e (ground arith, ground arith)
]

-- The next connection gets the item in front of the free list.
accept_cb_reuses :
    (malloc : Option ℕ) (cfd : ℤ) (a : ℕ) (t : DispatchThread)
    → t.eio_freelist ≡ some a
    → is_neg cfd ≡ false
    → (t' : DispatchThread) × (accept_cb malloc cfd t ≡ ok t')
      × ((t'.memory a).fd ≡ cfd)
      × ((t'.memory a).active ≡ true)
unfolding accept_cb accepted new_eio
accept_cb_reuses malloc cfd a t f up =
    let t1 : DispatchThread = record t { eio_freelist = (t.memory a).next } in
    let (fd, active) = push_eio-memory a a (start_watcher a cfd t1) in
    (push_eio a (start_watcher a cfd t1), ground arith, ground (arith, fd), ground (arith, active))

process_cb_frees :
    (b a : ℕ) (t : DispatchThread)
    → t.eio_uselist.head ≡ some a
    → (t' : DispatchThread) × (process_cb b t ≡ ok ((t.memory b).fd, t'))
      × (t'.eio_freelist ≡ some a)
      × ((t'.memory a).fd ≡ (t.memory a).fd)
      × ((t'.memory a).active ≡ (if b == a then false else (t.memory a).active))
unfolding process_cb pop_eio free_eio
process_cb_frees b a t h =
    let t1 = stop_watcher b t in
    let t' = free_eio a (pop_eio t1).0 in (t', ground arith, refl, ground arith, ground arith)

-- ProcessCb frees the item of the oldest connection, not that of the connection that it has served.
-- When these are the same, the item is free and its watcher stopped. When they are not, the item is
-- free while its watcher waits for the older connection, and the next connection that is accepted
-- overwrites the descriptor in it: the older connection is never served.
pub process_cb_overwrites :
    (b a : ℕ) (t : DispatchThread) (malloc : Option ℕ) (cfd : ℤ)
    → t.eio_uselist.head ≡ some a
    → is_neg cfd ≡ false
    → (t' : DispatchThread) × (t2 : DispatchThread) × (process_cb b t ≡ ok ((t.memory b).fd, t'))
      × (t'.eio_freelist ≡ some a)
      × ((t'.memory a).active ≡ (if b == a then false else (t.memory a).active))
      × (accept_cb malloc cfd t' ≡ ok t2)
      × ((t2.memory a).fd ≡ cfd)
      × ((t2.memory a).active ≡ true)
process_cb_overwrites b a t malloc cfd h up =
    let (t', e, f, fd, active) = process_cb_frees b a t h in
    let (t2, e2, fd2, active2) = accept_cb_reuses malloc cfd a t' f up in
    (t', t2, e, f, active, e2, fd2, active2)
