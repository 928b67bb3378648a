-- ===== src/LibevThreadPool/Fifos/Steps.antt =====
-- One operation of the worker pool, src/rpc_server/libev_thread_pool.cpp, against queues of calls.
use libevrpc.Base.{
  ℕ, ◌+◌, ◌<◌, ◌≡◌, refl, sym, ◌∙◌, ◌≢◌, ◌⊎◌, Bool, true, false, Option, none, some, List, [], ◌∷◌,
  ◌++◌, ◌==◌, arith, inl, inr, length, get_elem?-in, set, ltb, Bool-cases, Option-cases,
}
use libevrpc.Base.Fault.{Run, ok, fault}
use libevrpc.LibevThreadPool.{
  LibevThread, LibevThreadPool, dispatch_rpc_call, begin_call, restart_thread, thread_index,
}
use libevrpc.LibevThreadPool.Life.{retrieve_data}
use libevrpc.LibevThreadPool.Drain.{call_of}
use libevrpc.LibevThreadPool.Fifos.{
  Fifos, put_job, set_jobs, set_active, Event, accepts, refuses, begins, ends, cancels, Serves,
  accepted, refused, began, ended, cancelled,
}
use libevrpc.LibevThreadPool.Fifos.Layout.{Owners}
use libevrpc.LibevThreadPool.Fifos.Ops.{
  Working, Op, calls, notified, returns, drops, restarts, end_running, drop_running, step, OfPool,
}
use libevrpc.LibevThreadPool.Fifos.Represents.{Represents}
use libevrpc.LibevThreadPool.Fifos.Dispatched.{Dispatches, dispatch_rpc_call-Dispatches}
use libevrpc.LibevThreadPool.Fifos.Running.{
  set_running, Begins, begin_call-Begins, changed-Represents, running-active, end_call-Frees,
  retrieve_data-Frees,
}

thread_index-bound :
    (id i : ℕ) (ts : List LibevThread)
    → (thread_index id i ts ≡ 0) ⊎ (thread_index id i ts < i + length ts)
unfolding thread_index
thread_index-bound id i [] = inl refl
thread_index-bound id i (t ∷ ts) = elim (Bool-cases (t.thread_id == id)) [
  | inl here ↦ rw here (inr (omega arith))
  | inr later ↦ elim (thread_index-bound id (i + 1) ts) [
    | inl unknown ↦ rw later (inl unknown)
    | inr known ↦ rw later (inr (omega (arith, known)))
  ]
]

thread_index-lt :
    (id : ℕ) (ts : List LibevThread) → length ts ≢ 0 → thread_index id 0 ts < length ts
thread_index-lt id ts n = elim (thread_index-bound id 0 ts) [
  | inl unknown ↦ omega (arith, unknown)
  | inr known ↦ omega (arith, known)
]

-- A restart in whatever state of the calls keeps the queues and the running calls.
pub restart_thread-Represents :
    (new_id thread_id version : ℕ) (own : Owners) (p : LibevThreadPool) (running : ℕ → Option ℕ)
    (f : Fifos)
    → f.number ≢ 0
    → Represents own p running f
    → (who : Option ℕ) × (p' : LibevThreadPool) × (restart_thread new_id thread_id version p
        ≡ ok (who, p'))
      × Represents own p' running f
unfolding restart_thread
restart_thread-Represents new_id thread_id version own p running f n r =
    let some_threads : length r.threads ≢ 0 = λ z. n (sym (r.counted ∙ r.number) ∙ z) in
    let i = thread_index thread_id 0 r.threads in
    let (t, e) = get_elem?-in r.threads i (thread_index-lt thread_id r.threads some_threads) in
    elim (Bool-cases (ltb version t.running_version)) [
      | inl newer ↦ (none, p, rw (r.started, e, newer) refl, r)
      | inr old ↦ (
        some thread_id,
        record p { libev_threads = some (set r.threads i (record t { thread_id = new_id })) },
        rw (r.started, e, old) refl,
        changed-Represents own p running f i t (record t { thread_id = new_id }) r e refl,
      )
    ]

-- Where undefined behaviour comes from: a thread that has no call is notified, or RQItemNew takes
-- a new block.
abbrev pub Undefined : Fifos → Op → Working → Type 0
Undefined f (calls malloc write_ok rpc_call arg) w = (w.pool.rqi_freelist ≡ none) × (malloc ≢ none)
Undefined f (notified i) w = f.jobs i ≡ []
Undefined f (returns item) w = ⊥
Undefined f (drops item) w = ⊥
Undefined f (restarts new_id thread_id version) w = ⊥

-- What one operation may do: its events lead from the queues to others, or it is undefined.
abbrev pub Steps : Fifos → Op → Working → Run (List Event × Working) → Type 0
Steps f op w r =
    ((es : List Event) × (w' : Working) × (own : Owners) × (g : Fifos) × (r ≡ ok (es, w'))
      × Represents own w'.pool w'.running g
      × (g.number ≡ f.number)
      × ((later : List Event) (last : Fifos) → Serves g later last → Serves f (es ++ later) last))
    ⊎ ((r ≡ fault) × Undefined f op w)

calls-Steps :
    (malloc : Option ℕ) (write_ok : Bool) (rpc_call arg : ℕ) (f : Fifos) (w : Working)
    → f.number ≢ 0
    → Dispatches malloc w.pool w.running f
        (rpc_call, arg)
        (dispatch_rpc_call malloc write_ok rpc_call arg w.pool)
    → Steps f (calls malloc write_ok rpc_call arg) w (step (calls malloc write_ok rpc_call arg) w)
unfolding step
calls-Steps malloc write_ok rpc_call arg f w n (inl (own, p', true, run, r)) = inl (
  accepts (rpc_call, arg) ∷ [],
  record w { pool = p' },
  own,
  put_job (rpc_call, arg) f,
  rw run refl,
  r,
  refl,
  λ later last s. accepted (rpc_call, arg) n s,
)
calls-Steps malloc write_ok rpc_call arg f w n (inl (own, p', false, run, r)) = inl (
  refuses (rpc_call, arg) ∷ [],
  record w { pool = p' },
  own,
  f,
  rw run refl,
  r,
  refl,
  λ later last s. refused (rpc_call, arg) s,
)
calls-Steps malloc write_ok rpc_call arg f w n (inr (faults, empty, memory)) =
    inr (rw faults refl, (empty, memory))

notified-Steps :
    (i : ℕ) (f : Fifos) (w : Working)
    → Begins w.pool w.running f i (begin_call i w.pool)
    → Steps f (notified i) w (step (notified i) w)
unfolding step
notified-Steps i f w (inl (empty, faults)) = inr (rw faults refl, empty)
notified-Steps i f w (inr (own, p', item, later, run, jobs, fresh, r)) =
    let job = call_of (w.pool.heap item) in
    inl (
      begins i job ∷ [],
      record { pool = p'; running = set_running item (some i) w.running },
      own,
      set_active item (some (i, job)) (set_jobs i later f),
      rw run refl,
      r,
      refl,
      λ es last s. began i item job later jobs fresh s,
    )

returns-Steps :
    (item : ℕ) (own : Owners) (f : Fifos) (w : Working)
    → Represents own w.pool w.running f
    → Steps f (returns item) w (step (returns item) w)
unfolding step end_running
returns-Steps item own f w r = elim (Option-cases (w.running item)) [
  | inl idle ↦ inl ([], w, own, f, rw idle refl, r, refl, λ later last s. s)
  | inr (i, runs) ↦
      let (p', run, frees) = end_call-Frees own w.pool w.running f item i runs r in
      inl (
        ends i (call_of (w.pool.heap item)) ∷ [],
        record { pool = p'; running = set_running item none w.running },
        frees.0,
        set_active item none f,
        rw (runs, run) refl,
        frees.1,
        refl,
        λ later last s. ended i item _ (running-active own w.pool w.running f item i runs r) s,
      )
]

drops-Steps :
    (item : ℕ) (own : Owners) (f : Fifos) (w : Working)
    → Represents own w.pool w.running f
    → Steps f (drops item) w (step (drops item) w)
unfolding step drop_running
drops-Steps item own f w r = elim (Option-cases (w.running item)) [
  | inl idle ↦ inl ([], w, own, f, rw idle refl, r, refl, λ later last s. s)
  | inr (i, runs) ↦
      let (own', r') = retrieve_data-Frees own w.pool w.running f item i runs r in
      inl (
        cancels i (call_of (w.pool.heap item)) ∷ [],
        record {
          pool = retrieve_data (some item) w.pool;
          running = set_running item none w.running;
        },
        own',
        set_active item none f,
        rw runs refl,
        r',
        refl,
        λ later last s. cancelled i item _ (running-active own w.pool w.running f item i runs r) s,
      )
]

restarts-Steps :
    (new_id thread_id version : ℕ) (own : Owners) (f : Fifos) (w : Working)
    → f.number ≢ 0
    → Represents own w.pool w.running f
    → Steps f (restarts new_id thread_id version) w (step (restarts new_id thread_id version) w)
unfolding step
restarts-Steps new_id thread_id version own f w n r =
    let (who, p', run, r') =
      restart_thread-Represents new_id thread_id version own w.pool w.running f n r in
    inl ([], record w { pool = p' }, own, f, rw run refl, r', refl, λ later last s. s)

pub step-Steps :
    (op : Op) (own : Owners) (f : Fifos) (w : Working)
    → f.number ≢ 0
    → OfPool f.number op
    → Represents own w.pool w.running f
    → Steps f op w (step op w)
step-Steps (calls malloc write_ok rpc_call arg) own f w n h r =
    calls-Steps malloc write_ok rpc_call arg f w n
      (dispatch_rpc_call-Dispatches malloc write_ok rpc_call arg own w.pool w.running f n r)
step-Steps (notified i) own f w n lt r =
    notified-Steps i f w (begin_call-Begins own w.pool w.running f i lt r)
step-Steps (returns item) own f w n h r = returns-Steps item own f w r
step-Steps (drops item) own f w n h r = drops-Steps item own f w r
step-Steps (restarts new_id thread_id version) own f w n h r =
    restarts-Steps new_id thread_id version own f w n r
