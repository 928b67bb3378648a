-- ===== src/RpcCenter/Server.antt =====
-- CenterServerThread of src/rpc_center/center_server_thread.cpp: what happens to one connection, and
-- the items of its watchers.
use libevrpc.Base.{
  Bool, ℕ, Option, none, if◌then◌else◌, ◌≡◌, refl, some, List, [], ◌∷◌, ◌++◌, arith,
}
use libevrpc.Base.Int.{ℤ, pos, is_neg}
use libevrpc.Base.Fault.{Run, ok, fault, ◌>>=◌, deref}
use libevrpc.DispatchThread.{
  initialize_service, dispatch_run, DispatchThread, new_eio, free_eio, push_eio, pop_eio,
  start_watcher, stop_watcher,
}
use libevrpc.Proto.{inquiry, CentersProto}
use libevrpc.RpcCenter.{RpcCenter, Env, MessageThread, closed}
use libevrpc.RpcCenter.Process.{close}
use libevrpc.RpcCenter.Requests.{center_processor, process_center_request}

-- The descriptor is closed whatever CenterProcessor did with it.
unfoldable pub processor : Env → ℤ → RpcCenter → Run RpcCenter
processor env fd c = do done ← center_processor env fd c; ok (close fd done.0)

unfoldable pub init_center_server : ℤ → Bool → Option ℤ × Bool
init_center_server listenfd loop_ok = initialize_service listenfd loop_ok

-- Run: the descriptor that its loop serves, if there is one, and the loop that is left.
unfoldable pub center_server_run : ℤ → Bool → Option ℤ × Option ℤ
center_server_run listenfd loop_ok =
    let (watched, init) = init_center_server listenfd loop_ok in
    if init then dispatch_run watched else (none, watched)

-- AcceptCb, NewCEIO, FreeCEIO, PushCEIO and PopCEIO are those of the dispatcher of the server.
unfoldable pub new_ceio : Option ℕ → DispatchThread → Run (DispatchThread × Option ℕ)
new_ceio malloc t = new_eio malloc t

unfoldable pub free_ceio : ℕ → DispatchThread → DispatchThread
free_ceio item t = free_eio item t

unfoldable pub push_ceio : ℕ → DispatchThread → DispatchThread
push_ceio item t = push_eio item t

unfoldable pub pop_ceio : DispatchThread → DispatchThread × Option ℕ
pop_ceio t = pop_eio t

center_accepted : ℤ → DispatchThread × Option ℕ → Run DispatchThread
center_accepted cfd (t, none) = fault
center_accepted cfd (t, some item) = ok (push_ceio item (start_watcher item cfd t))

unfoldable pub center_accept_cb : Option ℕ → ℤ → DispatchThread → Run DispatchThread
unfolding center_accepted
center_accept_cb malloc cfd t =
    if is_neg cfd then ok t else (do got ← new_ceio malloc t; center_accepted cfd got)

-- Processor on a watcher: the connection is processed and closed, and the oldest item is freed.
unfoldable pub center_process_cb :
    Env → ℕ → DispatchThread × RpcCenter → Run (DispatchThread × RpcCenter)
center_process_cb env watcher (t, c) = do
  c' ← processor env ((t.memory watcher).fd) c
  let popped = pop_ceio (stop_watcher watcher t)
  item ← deref popped.1
  ok (free_ceio item (popped.0), c')

-- An inquiry of another center is put into the queue of the election thread, and its descriptor,
-- on which the election thread is to answer, is closed at once.
pub processor_closes_queued :
    (env : Env) (fd : ℤ) (p : CentersProto) (c : RpcCenter) (et : MessageThread)
    (q : List (ℤ × CentersProto))
    → (env.recv fd).0 ≡ pos 100
    → env.parse_centers (env.recv fd).1 ≡ some p
    → p.center_action ≡ inquiry
    → c.election_thread ≡ some et
    → et.queue ≡ some q
    → (c' : RpcCenter) × (processor env fd c ≡ ok c')
      × (c'.election_thread ≡ some (record et { queue = some (q ++ (fd, p) ∷ []) }))
      × (c'.effects ≡ c.effects ++ closed fd ∷ [])
unfolding processor center_processor process_center_request
processor_closes_queued env fd p c et q r s a e t =
    let c1 : RpcCenter = record c {
      election_thread = some (record et { queue = some (q ++ (fd, p) ∷ []) });
    } in
    (close fd c1, ground (arith, r, s, a, e, t), refl, refl)
