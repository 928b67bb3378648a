-- ===== src/LibevThreadPool/Fifos/Refines.antt =====
-- The worker pool of src/rpc_server/libev_thread_pool.cpp as queues of calls.
use mathlib.Core.Path.{subst}
use libevrpc.Base.{
  ℕ, zero, suc, ◌+◌, ◌≡◌, refl, sym, ap, ◌∙◌, ◌≢◌, true, none, some, List, [], ◌∷◌, ◌++◌, arith,
  All, inl, inr, length, get_elem?,
}
use libevrpc.Base.Int.{pos}
use libevrpc.Base.Fault.{ok, fault}
use libevrpc.LibevThreadPool.{Heap, LibevThread}
use libevrpc.LibevThreadPool.Life.{new_pool, new_threads, start}
use libevrpc.LibevThreadPool.Fifos.{idle, Fifos, Event, Serves, nothing}
use libevrpc.LibevThreadPool.Fifos.Layout.{Owners}
use libevrpc.LibevThreadPool.Fifos.Ops.{Working, Op, step, Outcome, done, faulted, run_pool, OfPool}
use libevrpc.LibevThreadPool.Fifos.Represents.{Represents}
use libevrpc.LibevThreadPool.Fifos.Steps.{Undefined, step-Steps}

-- The events are a history of the queues, and the pool then stands for the queues that they lead
-- to; undefined behaviour is met only where `Undefined` says so.
abbrev pub Follows : Fifos → List Event × Outcome → Type 0
Follows f (es, done w) =
    (g : Fifos) × (own : Owners) × Serves f es g × Represents own w.pool w.running g
Follows f (es, faulted op w) =
    (g : Fifos) × (own : Owners) × Serves f es g
    × Represents own w.pool w.running g
    × Undefined g op w

run_pool-ok :
    (op : Op) (ops : List Op) (w w' : Working) (es : List Event)
    → step op w ≡ ok (es, w')
    → run_pool (op ∷ ops) w ≡ (es ++ (run_pool ops w').0, (run_pool ops w').1)
unfolding run_pool
run_pool-ok op ops w w' es e = rw (e, run_pool)

run_pool-fault :
    (op : Op) (ops : List Op) (w : Working)
    → step op w ≡ fault
    → run_pool (op ∷ ops) w ≡ ([], faulted op w)
unfolding run_pool
run_pool-fault op ops w e = rw (e, run_pool)

Follows-later :
    (f g : Fifos) (es : List Event) (r : List Event × Outcome)
    → ((later : List Event) (last : Fifos) → Serves g later last → Serves f (es ++ later) last)
    → Follows g r
    → Follows f (es ++ r.0, r.1)
Follows-later f g es (later, done w) s (last, own, serves, r) = (last, own, s later last serves, r)
Follows-later f g es (later, faulted op w) s (last, own, serves, r, u) =
    (last, own, s later last serves, r, u)

-- A pool that stands for n queues of calls, n not 0, and for the calls that are running goes on to
-- do so, through any calls of DispatchRpcCall, notifications of its threads, ends of the running
-- calls, cancellations of threads in them and restarts of threads, one after the other in any order:
-- accepted calls go to the threads in turn, refused ones go nowhere, each thread begins its own
-- calls in their order and each of them once, no call begins in the item of one that is running,
-- and only a call that is running ends or is cancelled, once, with the function and the argument
-- that were queued. Undefined behaviour is met only by a thread that is notified with no call in
-- its queue, and by a call for which the free list is empty and malloc() gives a block.
pub run_pool-Follows :
    (ops : List Op) (own : Owners) (w : Working) (f : Fifos)
    → f.number ≢ 0
    → All (OfPool f.number) ops
    → Represents own w.pool w.running f
    → Follows f (run_pool ops w)
unfolding run_pool
run_pool-Follows [] own w f n h r = (f, own, nothing f, r)
run_pool-Follows (op ∷ ops) own w f n h r = elim (step-Steps op own f w n h.0 r) [
  | inl (es, w', own', g, run, r', same, serves) ↦
      let n' : g.number ≢ 0 = λ z. n (sym same ∙ z) in
      let later : All (OfPool g.number) ops = rw same (h.1) in
      subst (Follows f) (sym (run_pool-ok op ops w w' es run))
        (Follows-later f g es (run_pool ops w') serves (run_pool-Follows ops own' w' g n' later r'))
  | inr (faults, u) ↦
      subst (Follows f) (sym (run_pool-fault op ops w faults)) (f, own, nothing f, r, u)
]

new_threads_lem :
    (ids : ℕ → ℕ) (i n j : ℕ) (t : LibevThread)
    → get_elem? (new_threads ids i n) j ≡ some t
    → (t.new_request_queue.head ≡ none) × (t.new_request_queue.tail ≡ none)
unfolding new_threads
new_threads_lem ids i zero j t e = absurd (ground arith)
new_threads_lem ids i (suc n) zero t e = ground (arith, e)
new_threads_lem ids i (suc n) (suc j) t e = new_threads_lem ids (i + 1) n j t e

length-new_threads : (ids : ℕ → ℕ) (i n : ℕ) → length (new_threads ids i n) ≡ n
unfolding new_threads
length-new_threads ids i zero = refl
length-new_threads ids i (suc n) = ap suc (length-new_threads ids (i + 1) n)

-- A pool of n threads stands for n empty queues when Start has started it; its free list is empty.
pub start-Represents :
    (h : Heap) (ids : ℕ → ℕ) (n : ℕ)
    → Represents (λ a. 0) (start true ids (pos n) (new_pool h)).0 (λ item. none) (idle n)
unfolding start
start-Represents h ids n = record {
  threads = new_threads ids 0 n;
  started = refl;
  counted = length-new_threads ids 0 n;
  number = refl;
  turn = refl;
  each =
      λ i t e. let (head, tail) = new_threads_lem ids 0 n i t e in ([], (head, tail, tt), tt, refl);
  spare = ([], refl, tt, tt);
  busy = λ a. refl;
}
