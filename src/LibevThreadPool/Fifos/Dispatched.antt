-- ===== src/LibevThreadPool/Fifos/Dispatched.antt =====
-- DispatchRpcCall of src/rpc_server/libev_thread_pool.cpp against queues of calls.
use mathlib.Core.Path.{subst}
use libevrpc.Base.{
  ℕ, ◌%◌, ◌<◌, ◌≡◌, refl, sym, ap, ◌∙◌, ◌≢◌, Bool, true, false, Option, none, some, List, [], ◌∷◌,
  ◌++◌, ◌⊎◌, inl, inr, ◌==◌, if◌then◌else◌, arith, length-set, get_elem?, get_elem?-in, set,
}
use libevrpc.Base.Int.{pos}
use libevrpc.Base.Fault.{Run, ok, fault, ◌>>=◌}
use libevrpc.LibevThreadPool.{
  RequestQueueItem, Heap, write, LibevThread, LibevThreadPool, rq_item_new, rq_item_push,
  next_thread, write_call, give_call, dispatch_new, dispatch_rpc_call,
}
use libevrpc.LibevThreadPool.Queue.{Chain, Distinct}
use libevrpc.LibevThreadPool.Free.{rq_item_new_empty}
use libevrpc.LibevThreadPool.Spread.{dispatch_rpc_call_started}
use libevrpc.LibevThreadPool.Drain.{call_of}
use libevrpc.LibevThreadPool.Fifos.{Job, Fifos, put_at, put_job}
use libevrpc.LibevThreadPool.Fifos.Layout.{
  Owners, thread, move, Kept, Queued-Kept, Active-Kept, free_list, Owned, Owned-move,
}
use libevrpc.LibevThreadPool.Fifos.Represents.{
  Represents, Spare-Kept, Each-set, push-Queued, push-Kept,
}

-- Writing to an item that nobody owns.
write-Kept :
    (h : Heap) (own : Owners) (item a : ℕ) (x : RequestQueueItem)
    → own item ≡ 0
    → own a ≢ 0
    → Kept h (write item x h) own own a
write-Kept h own item a x nobody some_owner =
    let other : a ≢ item = λ same. some_owner (ap own same ∙ nobody) in
    (ground (arith, other), refl)

write-Represents :
    (own : Owners) (p : LibevThreadPool) (running : ℕ → Option ℕ) (f : Fifos) (item : ℕ)
    (x : RequestQueueItem)
    → own item ≡ 0
    → Represents own p running f
    → Represents own (record p { heap = write item x p.heap }) running f
write-Represents own p running f item x nobody r = record {
  threads = r.threads;
  started = r.started;
  counted = r.counted;
  number = r.number;
  turn = r.turn;
  each = λ i t e.
      Queued-Kept p.heap (write item x p.heap) own own (thread i) t.new_request_queue (f.jobs i)
        (λ a o. write-Kept p.heap own item a x nobody (omega (arith, o))) (r.each i t e);
  spare =
      Spare-Kept p.heap (write item x p.heap) own own p.rqi_freelist
        (λ a o. write-Kept p.heap own item a x nobody (omega (arith, o))) r.spare;
  busy = λ a.
      Active-Kept f.number p.heap (write item x p.heap) own own a (running a) (f.active a)
        (λ o. write-Kept p.heap own item a x nobody (omega (arith, o))) (r.busy a);
}

-- The pool with an item that nobody owned in the queue of the thread at `i`.
abbrev pushed : Bool → ℕ → ℕ → List LibevThread → LibevThread → LibevThreadPool → LibevThreadPool
pushed write_ok i item threads t p =
    let (h', q') = rq_item_push item p.heap t.new_request_queue in
    let t' : LibevThread = record t {
      new_request_queue = q';
      notified = if write_ok then t.notified ++ b'c' ∷ [] else t.notified;
    } in
    record p { current_thread = pos i; libev_threads = some (set threads i t'); heap = h' }

push-Represents :
    (write_ok : Bool) (own : Owners) (p : LibevThreadPool) (running : ℕ → Option ℕ) (f : Fifos)
    (i item : ℕ) (t : LibevThread) (r : Represents own p running f)
    → own item ≡ 0
    → get_elem? r.threads i ≡ some t
    → Represents
        (move item (thread i) own)
        (pushed write_ok i item r.threads t p)
        running
        (put_at i (call_of (p.heap item)) f)
push-Represents write_ok own p running f i item t r nobody e =
    let q = t.new_request_queue in
    let mine = r.each i t e in
    let h' = (rq_item_push item p.heap q).0 in
    let kept = push-Kept p.heap own (thread i) item q (f.jobs i) nobody mine in
    let new = push-Queued p.heap own (thread i) item q (f.jobs i) nobody (omega arith) mine in
    record {
      threads = set r.threads i _;
      started = refl;
      counted = length-set r.threads i _ ∙ r.counted;
      number = r.number;
      turn = refl;
      each =
          Each-set p.heap h' own (move item (thread i) own) r.threads f.jobs i _
            (f.jobs i ++ call_of (p.heap item) ∷ [])
            (λ a j o other. kept a (omega (arith, o)) (omega (arith, o, other))) new r.each;
      spare =
          Spare-Kept p.heap h' own (move item (thread i) own) p.rqi_freelist
            (λ a o. kept a (omega (arith, o)) (omega (arith, o))) r.spare;
      busy = λ a.
          Active-Kept f.number p.heap h' own (move item (thread i) own) a (running a) (f.active a)
            (λ o. kept a (omega (arith, o)) (omega (arith, o))) (r.busy a);
    }

-- An item that nobody owns is queued with its call at the thread that is next in turn.
give_call-Represents :
    (write_ok : Bool) (rpc_call arg item : ℕ) (own : Owners) (p : LibevThreadPool)
    (running : ℕ → Option ℕ) (f : Fifos) (r : Represents own p running f)
    → own item ≡ 0
    → f.number ≢ 0
    → (p' : LibevThreadPool) × (give_call write_ok rpc_call arg item r.threads p ≡ ok (p', true))
      × Represents
          (move item (thread (next_thread p.current_thread % p.num_threads)) own)
          p'
          running
          (put_job (rpc_call, arg) f)
unfolding give_call write-Represents
give_call-Represents write_ok rpc_call arg item own p running f r nobody some_threads =
    let i = next_thread p.current_thread % p.num_threads in
    let same : i ≡ next_thread f.turn % f.number = rw (r.number, r.turn) in
    let positive : p.num_threads ≢ 0 = λ z. some_threads (sym r.number ∙ z) in
    let bounded : i < p.num_threads = grind arith in
    let (t, e) = get_elem?-in r.threads i (rw (r.counted) bounded) in
    let h1 = write_call item rpc_call arg p.heap in
    let p1 : LibevThreadPool = record p { heap = h1 } in
    let r1 =
      write-Represents own p running f item
        (record (p.heap item) { processor = rpc_call; param = arg }) nobody r in
    let job : call_of (h1 item) ≡ (rpc_call, arg) = ground arith in
    let done = push-Represents write_ok own p1 running f i item t r1 nobody e in
    let test : (p.num_threads == 0) ≡ false = ground arith in
    (
      pushed write_ok i item r.threads t p1,
      rw (test, e),
      subst
          (λ k.
            Represents (move item (thread i) own) (pushed write_ok i item r.threads t p1) running
              (put_at k (rpc_call, arg) f))
          same
          (subst
            (λ c.
              Represents (move item (thread i) own) (pushed write_ok i item r.threads t p1) running
                (put_at i c f))
            job done),
    )

-- The first item of the free list is given, and nobody owns it then.
take-Represents :
    (own : Owners) (p : LibevThreadPool) (running : ℕ → Option ℕ) (f : Fifos) (item : ℕ)
    (xs : List ℕ)
    → Chain p.heap p.rqi_freelist (item ∷ xs)
    → Owned own free_list (item ∷ xs)
    → Distinct (item ∷ xs)
    → Represents own p running f
    → Represents (move item 0 own) (record p { rqi_freelist = (p.heap item).next }) running f
take-Represents own p running f item xs c o d r =
    let own' = move item 0 own in
    let kept : (a : ℕ) → own a ≢ free_list → Kept p.heap p.heap own own' a =
      λ a n. (refl, ground (arith, o.0, n)) in
    record {
      threads = r.threads;
      started = r.started;
      counted = r.counted;
      number = r.number;
      turn = r.turn;
      each = λ i t e.
          Queued-Kept p.heap p.heap own own' (thread i) t.new_request_queue (f.jobs i)
            (λ a q. kept a (omega (arith, q))) (r.each i t e);
      spare = (xs, c.1, Owned-move own free_list 0 item xs d.0 o.1, d.1);
      busy = λ a.
          Active-Kept f.number p.heap p.heap own own' a (running a) (f.active a)
            (λ q. kept a (omega (arith, q))) (r.busy a);
    }

-- What DispatchRpcCall may do: the pool then stands for the queues with the job, or as they were;
-- or a new block is linked by a write in front of it.
abbrev pub Dispatches :
    Option ℕ
    → LibevThreadPool
    → (ℕ → Option ℕ)
    → Fifos
    → Job
    → Run (LibevThreadPool × Bool)
    → Type 0
Dispatches malloc p running f job r =
    ((own : Owners) × (p' : LibevThreadPool) × (ret : Bool) × (r ≡ ok (p', ret))
      × Represents own p' running (if ret then put_job job f else f))
    ⊎ ((r ≡ fault) × (p.rqi_freelist ≡ none) × (malloc ≢ none))

dispatch_new_given :
    (malloc : Option ℕ) (write_ok : Bool) (rpc_call arg : ℕ) (p : LibevThreadPool)
    (threads : List LibevThread) (got : LibevThreadPool × Option ℕ)
    → p.libev_threads ≡ some threads
    → rq_item_new malloc p ≡ ok got
    → dispatch_rpc_call malloc write_ok rpc_call arg p
      ≡ dispatch_new write_ok rpc_call arg threads got
dispatch_new_given malloc write_ok rpc_call arg p threads got started new =
    dispatch_rpc_call_started malloc write_ok rpc_call arg p threads started
    ∙ ap
        (λ (g : Run (LibevThreadPool × Option ℕ)). g >>= dispatch_new write_ok rpc_call arg threads)
        new

rq_item_new_first :
    (malloc : Option ℕ) (item : ℕ) (p : LibevThreadPool)
    → p.rqi_freelist ≡ some item
    → rq_item_new malloc p ≡ ok (record p { rqi_freelist = (p.heap item).next }, some item)
unfolding rq_item_new
rq_item_new_first malloc item p e = rw e refl

dispatch_free :
    (malloc : Option ℕ) (write_ok : Bool) (rpc_call arg : ℕ) (own : Owners) (p : LibevThreadPool)
    (running : ℕ → Option ℕ) (f : Fifos) (xs : List ℕ)
    → f.number ≢ 0
    → Chain p.heap p.rqi_freelist xs
    → Owned own free_list xs
    → Distinct xs
    → (r : Represents own p running f)
    → Dispatches malloc p running f
        (rpc_call, arg)
        (dispatch_rpc_call malloc write_ok rpc_call arg p)
unfolding dispatch_new take-Represents
dispatch_free none write_ok rpc_call arg own p running f [] n c o d r =
    let (fails, faults) = rq_item_new_empty 0 p c in
    inl (
      own,
      p,
      false,
      dispatch_new_given none write_ok rpc_call arg p r.threads (p, none) r.started fails,
      r,
    )
dispatch_free (some base) write_ok rpc_call arg own p running f [] n c o d r =
    let (fails, faults) = rq_item_new_empty base p c in
    inr (
      dispatch_rpc_call_started (some base) write_ok rpc_call arg p r.threads r.started
          ∙ ap
              (λ (g : Run (LibevThreadPool × Option ℕ)).
                g >>= dispatch_new write_ok rpc_call arg r.threads)
              faults,
      c,
      λ e. ground (arith, e),
    )
dispatch_free malloc write_ok rpc_call arg own p running f (item ∷ xs) n c o d r =
    let p1 : LibevThreadPool = record p { rqi_freelist = (p.heap item).next } in
    let r1 = take-Represents own p running f item xs c o d r in
    let nobody : move item 0 own item ≡ 0 = ground arith in
    let (p', run, r') =
      give_call-Represents write_ok rpc_call arg item (move item 0 own) p1 running f r1 nobody n in
    inl (
      _,
      p',
      true,
      dispatch_new_given malloc write_ok rpc_call arg p r.threads (p1, some item) r.started
            (rq_item_new_first malloc item p c.0)
          ∙ run,
      r',
    )

pub dispatch_rpc_call-Dispatches :
    (malloc : Option ℕ) (write_ok : Bool) (rpc_call arg : ℕ) (own : Owners) (p : LibevThreadPool)
    (running : ℕ → Option ℕ) (f : Fifos)
    → f.number ≢ 0
    → Represents own p running f
    → Dispatches malloc p running f
        (rpc_call, arg)
        (dispatch_rpc_call malloc write_ok rpc_call arg p)
dispatch_rpc_call-Dispatches malloc write_ok rpc_call arg own p running f n r =
    let (xs, c, o, d) = r.spare in
    dispatch_free malloc write_ok rpc_call arg own p running f xs n c o d r
