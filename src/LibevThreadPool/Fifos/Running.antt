-- ===== src/LibevThreadPool/Fifos/Running.antt =====
-- The calls that run in the threads of src/rpc_server/libev_thread_pool.cpp against queues of calls:
-- a thread begins one, ends it, or is cancelled in it.
use libevrpc.Base.{
  ℕ, ◌+◌, ◌<◌, ◌≡◌, refl, sym, ap, ◌∙◌, ◌≢◌, ◌⊎◌, Option, none, some, List, [], ◌∷◌, arith, inl,
  inr, ◌==◌, if◌then◌else◌, length, length-set, get_elem?, get_elem?-in, get_elem?-set_cases, set,
  Bool-cases,
}
use libevrpc.Base.Fault.{Run, ok, fault}
use libevrpc.LibevThreadPool.{
  Heap, set_next, RequestQueue, LibevThread, LibevThreadPool, rq_item_pop, rq_item_free, begin_call,
  end_call,
}
use libevrpc.LibevThreadPool.Life.{retrieve_data}
use libevrpc.LibevThreadPool.Queue.{Fresh, Distinct, Holds, Chain-write, rq_item_pop-Holds}
use libevrpc.LibevThreadPool.Drain.{call_of, calls_at}
use libevrpc.LibevThreadPool.Fifos.{Job, Fifos, set_jobs, set_active}
use libevrpc.LibevThreadPool.Fifos.Layout.{
  Owners, free_list, in_call, thread, move, Kept, Queued, Queued-Kept, Owned, Owned-move,
  Owned-Fresh, Active, Active-Kept,
}
use libevrpc.LibevThreadPool.Fifos.Represents.{Represents, Spare, Spare-Kept, Each, Each-set}

-- Which thread runs an item.
abbrev pub set_running : ℕ → Option ℕ → (ℕ → Option ℕ) → ℕ → Option ℕ
set_running item by running a = if item == a then by else running a

-- What is left of a queue when its first item runs.
taken-Queued :
    (h : Heap) (own : Owners) (k item : ℕ) (q : RequestQueue) (xs : List ℕ)
    → Fresh item xs
    → Holds h q xs
    → Owned own k xs
    → Queued h (move item in_call own) k q (calls_at h xs)
taken-Queued h own k item q xs fresh holds o =
    (xs, holds, Owned-move own k in_call item xs fresh o, refl)

begun-busy :
    (n i item : ℕ) (h : Heap) (own : Owners) (running : ℕ → Option ℕ)
    (active : ℕ → Option (ℕ × Job))
    → i < n
    → own item ≢ in_call
    → ((a : ℕ) → Active n h own a (running a) (active a))
    → (a : ℕ)
    → Active n h
        (move item in_call own)
        a
        (set_running item (some i) running a)
        (if item == a then some (i, call_of (h item)) else active a)
begun-busy n i item h own running active lt other busy a = elim (Bool-cases (item == a)) [
  | inl here ↦
      let same : item ≡ a = ground (arith, here) in
      let mine : move item in_call own a ≡ in_call = rw here refl in
      rw here (ap (λ b. some (i, call_of (h b))) same, mine, lt)
  | inr there ↦ rw there (
      Active-Kept n h h own (move item in_call own) a (running a) (active a)
        (λ o. (refl, rw there refl)) (busy a))
]

begun-Represents :
    (own : Owners) (p : LibevThreadPool) (running : ℕ → Option ℕ) (f : Fifos) (i item : ℕ)
    (t : LibevThread) (xs : List ℕ) (q : RequestQueue) (r : Represents own p running f)
    → i < f.number
    → own item ≡ thread i
    → Fresh item xs
    → Holds p.heap q xs
    → Owned own (thread i) xs
    → Represents
        (move item in_call own)
        (record p { libev_threads = some (set r.threads i (record t { new_request_queue = q })) })
        (set_running item (some i) running)
        (set_active item (some (i, call_of (p.heap item))) (set_jobs i (calls_at p.heap xs) f))
begun-Represents own p running f i item t xs q r lt mine fresh holds o =
    let own' = move item in_call own in
    let kept : (a : ℕ) → own a ≢ thread i → Kept p.heap p.heap own own' a =
      λ a n. (refl, ground (arith, n, mine)) in
    record {
      threads = set r.threads i _;
      started = refl;
      counted = length-set r.threads i _ ∙ r.counted;
      number = r.number;
      turn = r.turn;
      each =
          Each-set p.heap p.heap own own' r.threads f.jobs i _ (calls_at p.heap xs)
            (λ a j e other. kept a (λ z. omega (arith, e, z, other)))
            (taken-Queued p.heap own (thread i) item q xs fresh holds o) r.each;
      spare =
          Spare-Kept p.heap p.heap own own' p.rqi_freelist
            (λ a e. kept a (λ z. omega (arith, e, z))) r.spare;
      busy =
          begun-busy f.number i item p.heap own running f.active lt (λ z. omega (arith, mine, z))
            r.busy;
    }

-- A thread with no call reads through NULL; another begins its oldest call, in an item that no
-- other running call has.
abbrev pub Begins :
    LibevThreadPool → (ℕ → Option ℕ) → Fifos → ℕ → Run (ℕ × LibevThreadPool) → Type 0
Begins p running f i r =
    ((f.jobs i ≡ []) × (r ≡ fault))
    ⊎ ((own : Owners) × (p' : LibevThreadPool) × (item : ℕ) × (later : List Job) × (r
          ≡ ok (item, p'))
        × (f.jobs i ≡ call_of (p.heap item) ∷ later)
        × (f.active item ≡ none)
        × Represents own p' (set_running item (some i) running)
            (set_active item (some (i, call_of (p.heap item))) (set_jobs i later f)))

idle_item :
    (n : ℕ) (h : Heap) (own : Owners) (a : ℕ) (by : Option ℕ) (x : Option (ℕ × Job))
    → own a ≢ in_call
    → Active n h own a by x
    → x ≡ none
idle_item n h own a none x other e = e
idle_item n h own a (some i) x other (e, o, lt) = absurd (other o)

pub begin_call-Begins :
    (own : Owners) (p : LibevThreadPool) (running : ℕ → Option ℕ) (f : Fifos) (i : ℕ)
    → i < f.number
    → Represents own p running f
    → Begins p running f i (begin_call i p)
unfolding begin_call
begin_call-Begins own p running f i lt r =
    let here : i < length r.threads = omega (arith, lt, r.counted, r.number) in
    let (t, e) = get_elem?-in r.threads i here in
    let (xs, holds, o, calls) = r.each i t e in
    elim (rq_item_pop-Holds p.heap t.new_request_queue xs holds) [
      | inl (empty, popped) ↦
          let none_left : f.jobs i ≡ [] = sym calls ∙ ap (calls_at p.heap) empty in
          inl (none_left, rw (r.started, e, popped) refl)
      | inr (item, rest, split, popped, holds') ↦
          let q = (rq_item_pop p.heap t.new_request_queue).1 in
          let owned : Owned own (thread i) (item ∷ rest) = rw split at o in
          let distinct : Distinct (item ∷ rest) = rw split at (holds.2) in
          let jobs : f.jobs i ≡ calls_at p.heap (item ∷ rest) =
            sym calls ∙ ap (calls_at p.heap) split in
          inr (
            move item in_call own,
            _,
            item,
            calls_at p.heap rest,
            rw (r.started, e, popped) refl,
            jobs,
            idle_item f.number p.heap own item (running item) (f.active item)
                (λ z. omega (arith, owned.0, z)) (r.busy item),
            begun-Represents own p running f i item t rest q r lt owned.0 distinct.0 holds' owned.1,
          )
    ]

-- An item that is put in front of the free list, and the items of other owners.
freed-Kept :
    (h : Heap) (own : Owners) (q : Option ℕ) (item a : ℕ)
    → own a ≢ own item
    → Kept h (set_next item q h) own (move item free_list own) a
freed-Kept h own q item a other =
    let not_item : a ≢ item = λ same. other (ap own same) in
    (ground (arith, not_item), ground (arith, not_item))

freed-Spare :
    (h : Heap) (own : Owners) (q : Option ℕ) (item : ℕ)
    → own item ≢ free_list
    → Spare h own q
    → Spare (set_next item q h) (move item free_list own) (some item)
freed-Spare h own q item other (xs, c, o, d) =
    let fresh = Owned-Fresh own free_list item xs o other in
    let linked : (set_next item q h item).next ≡ q = ground arith in
    (
      item ∷ xs,
      (refl, rw linked (Chain-write h q item (record (h item) { next = q }) xs fresh c)),
      (ground arith, Owned-move own free_list free_list item xs fresh o),
      (fresh, d),
    )

-- The item of a running call is free, and the other calls run on.
freed-busy :
    (n item : ℕ) (h : Heap) (own : Owners) (q : Option ℕ) (running : ℕ → Option ℕ)
    (active : ℕ → Option (ℕ × Job))
    → ((a : ℕ) → Active n h own a (running a) (active a))
    → (a : ℕ)
    → Active n
        (set_next item q h)
        (move item free_list own)
        a
        (set_running item none running a)
        (if item == a then none else active a)
freed-busy n item h own q running active busy a = elim (Bool-cases (item == a)) [
  | inl here ↦ rw here refl
  | inr there ↦ rw there (
      Active-Kept n h (set_next item q h) own (move item free_list own) a (running a) (active a)
        (λ o. (rw there refl, rw there refl)) (busy a))
]

freed-Represents :
    (own : Owners) (p : LibevThreadPool) (running : ℕ → Option ℕ) (f : Fifos) (item : ℕ)
    → own item ≡ in_call
    → Represents own p running f
    → Represents
        (move item free_list own)
        (rq_item_free item p)
        (set_running item none running)
        (set_active item none f)
unfolding rq_item_free
freed-Represents own p running f item mine r =
    let h' = set_next item p.rqi_freelist p.heap in
    let own' = move item free_list own in
    record {
      threads = r.threads;
      started = r.started;
      counted = r.counted;
      number = r.number;
      turn = r.turn;
      each = λ i t e.
          Queued-Kept p.heap h' own own' (thread i) t.new_request_queue (f.jobs i)
            (λ a o. freed-Kept p.heap own p.rqi_freelist item a (λ z. omega (arith, o, z, mine)))
            (r.each i t e);
      spare = freed-Spare p.heap own p.rqi_freelist item (omega (arith, mine)) r.spare;
      busy = freed-busy f.number item p.heap own p.rqi_freelist running f.active r.busy;
    }

-- The queue of a thread is kept when the thread is changed otherwise.
pub Each-same :
    (h : Heap) (own : Owners) (threads : List LibevThread) (jobs : ℕ → List Job) (i : ℕ)
    (t t' : LibevThread)
    → get_elem? threads i ≡ some t
    → t'.new_request_queue ≡ t.new_request_queue
    → Each h own threads jobs
    → Each h own (set threads i t') jobs
Each-same h own threads jobs i t t' e same each j u at_j =
    elim (get_elem?-set_cases t' u threads i j at_j) [
      | inl (here, now) ↦ rw (now, here, same) (each i t e)
      | inr (other, was) ↦ each j u was
    ]

-- A thread that is changed, but for its queue.
pub changed-Represents :
    (own : Owners) (p : LibevThreadPool) (running : ℕ → Option ℕ) (f : Fifos) (i : ℕ)
    (t t' : LibevThread) (r : Represents own p running f)
    → get_elem? r.threads i ≡ some t
    → t'.new_request_queue ≡ t.new_request_queue
    → Represents own (record p { libev_threads = some (set r.threads i t') }) running f
changed-Represents own p running f i t t' r e same = record {
  threads = set r.threads i t';
  started = refl;
  counted = length-set r.threads i t' ∙ r.counted;
  number = r.number;
  turn = r.turn;
  each = Each-same p.heap own r.threads f.jobs i t t' e same r.each;
  spare = r.spare;
  busy = r.busy;
}

-- The item of a running call is free afterwards, and the call does not run.
abbrev pub Frees : (ℕ → Option ℕ) → Fifos → ℕ → LibevThreadPool → Type 0
Frees running f item p =
    (own : Owners) × Represents own p (set_running item none running) (set_active item none f)

running_item :
    (n : ℕ) (h : Heap) (own : Owners) (a i : ℕ) (by : Option ℕ) (x : Option (ℕ × Job))
    → by ≡ some i
    → Active n h own a by x
    → (x ≡ some (i, call_of (h a))) × (own a ≡ in_call) × (i < n)
running_item n h own a i none x e b = absurd (ground arith)
running_item n h own a i (some j) x e b =
    let same : j ≡ i = ground arith in
    (b.0 ∙ ap (λ k. some (k, call_of (h a))) same, b.1, rw same at (b.2))

pub running-active :
    (own : Owners) (p : LibevThreadPool) (running : ℕ → Option ℕ) (f : Fifos) (item i : ℕ)
    → running item ≡ some i
    → Represents own p running f
    → f.active item ≡ some (i, call_of (p.heap item))
running-active own p running f item i e r =
    (running_item f.number p.heap own item i (running item) (f.active item) e (r.busy item)).0

pub end_call-Frees :
    (own : Owners) (p : LibevThreadPool) (running : ℕ → Option ℕ) (f : Fifos) (item i : ℕ)
    → running item ≡ some i
    → Represents own p running f
    → (p' : LibevThreadPool) × (end_call i item p ≡ ok p') × Frees running f item p'
unfolding end_call
end_call-Frees own p running f item i e r =
    let (x, o, lt) =
      running_item f.number p.heap own item i (running item) (f.active item) e (r.busy item) in
    let here : i < length r.threads = omega (arith, lt, r.counted, r.number) in
    let (t, at) = get_elem?-in r.threads i here in
    let t' : LibevThread = record t { running_version = t.running_version + 1 } in
    let r' = changed-Represents own p running f i t t' r at refl in
    (
      _,
      rw (r.started, at) refl,
      (move item free_list own, freed-Represents own _ running f item o r'),
    )

pub retrieve_data-Frees :
    (own : Owners) (p : LibevThreadPool) (running : ℕ → Option ℕ) (f : Fifos) (item i : ℕ)
    → running item ≡ some i
    → Represents own p running f
    → Frees running f item (retrieve_data (some item) p)
unfolding retrieve_data
retrieve_data-Frees own p running f item i e r =
    let (x, o, lt) =
      running_item f.number p.heap own item i (running item) (f.active item) e (r.busy item) in
    (move item free_list own, freed-Represents own p running f item o r)
