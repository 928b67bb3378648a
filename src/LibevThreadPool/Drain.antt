-- ===== src/LibevThreadPool/Drain.antt =====
-- What a thread of the pool still runs when Destroy of src/rpc_server/libev_thread_pool.cpp has told
-- it to end.
use mathlib.Core.Path.{ap₂, subst}
use libevrpc.Base.{
  ℕ, ◌≡◌, refl, sym, ap, ◌∙◌, Bool, true, some, List, [], ◌∷◌, ◌++◌, map, length, replicate,
  get_elem?, arith, inl, inr,
}
use libevrpc.Base.Fault.{ok, deref, bind_ok}
use libevrpc.LibevThreadPool.{
  RequestQueueItem, Heap, LibevThread, LibevThreadPool, rq_item_pop, rq_item_free, begin_call,
  end_call, libev_processor,
}
use libevrpc.LibevThreadPool.Life.{serve}
use libevrpc.LibevThreadPool.Queue.{Holds}
use libevrpc.LibevThreadPool.Spread.{libev_processor-Holds}

-- The function and the argument of a call.
abbrev pub call_of : RequestQueueItem → ℕ × ℕ
call_of item = (item.processor, item.param)

abbrev pub calls_at : Heap → List ℕ → List (ℕ × ℕ)
calls_at h = map (λ a. call_of (h a))

begin_call-heap :
    (index item : ℕ) (p p' : LibevThreadPool)
    → begin_call index p ≡ ok (item, p')
    → p'.heap ≡ p.heap
unfolding begin_call
begin_call-heap index item p p' e =
    let (threads, t, e1) = bind_ok (deref p.libev_threads) _ (item, p') e in
    let (me, m, e2) = bind_ok (deref (get_elem? threads index)) _ (item, p') e1 in
    let (i, f, e3) = bind_ok (deref (rq_item_pop p.heap me.new_request_queue).0) _ (item, p') e2 in
    ground arith

end_call_keeps :
    (index item : ℕ) (p p' : LibevThreadPool)
    → end_call index item p ≡ ok p'
    → (a : ℕ) → call_of (p'.heap a) ≡ call_of (p.heap a)
unfolding end_call rq_item_free
end_call_keeps index item p p' e a =
    let (threads, t, e1) = bind_ok (deref p.libev_threads) _ p' e in
    let (me, m, e2) = bind_ok (deref (get_elem? threads index)) _ p' e1 in ground arith

-- Running a call changes no other.
libev_processor_keeps :
    (index : ℕ) (p p' : LibevThreadPool) (item : RequestQueueItem)
    → libev_processor index p ≡ ok (item, p')
    → (a : ℕ) → call_of (p'.heap a) ≡ call_of (p.heap a)
unfolding libev_processor
libev_processor_keeps index p p' item e a =
    let ((i, p1), begins, e1) = bind_ok (begin_call index p) _ (item, p') e in
    let (p2, ends, e2) = bind_ok (end_call index i p1) _ (item, p') e1 in
    let heap = begin_call-heap index i p p1 begins in
    let kept = end_call_keeps index i p1 p2 ends a in ground (arith, heap, kept, e2)

pub calls_at-same :
    (h h' : Heap) (xs : List ℕ)
    → ((a : ℕ) → call_of (h' a) ≡ call_of (h a))
    → calls_at h' xs ≡ calls_at h xs
calls_at-same h h' [] same = refl
calls_at-same h h' (a ∷ xs) same = ap₂ ◌∷◌ (same a) (calls_at-same h h' xs same)

serve-cons :
    (index : ℕ) (bs : List ℕ) (p p1 p' : LibevThreadPool) (item : RequestQueueItem)
    (items : List RequestQueueItem) (ends : Bool)
    → libev_processor index p ≡ ok (item, p1)
    → serve index bs p1 ≡ ok (items, p', ends)
    → serve index (b'c' ∷ bs) p ≡ ok (item ∷ items, p', ends)
unfolding serve
serve-cons index bs p p1 p' item items ends run later = ground (arith, run, later)

-- A `c` for each call in the queue, then a `q`.
abbrev pub told_to_end : ℕ → List ℕ
told_to_end n = replicate n b'c' ++ b'q' ∷ []

-- A thread that was notified of each call in its queue, and is then told to end, first runs all of
-- these calls, the oldest first, and then leaves its event loop.
pub serve_drains :
    (index : ℕ) (p : LibevThreadPool) (threads : List LibevThread) (me : LibevThread) (xs : List ℕ)
    → p.libev_threads ≡ some threads
    → get_elem? threads index ≡ some me
    → Holds p.heap me.new_request_queue xs
    → (items : List RequestQueueItem) × (p' : LibevThreadPool) × (serve index
          (told_to_end (length xs))
          p
        ≡ ok (items, p', true))
      × (map call_of items ≡ calls_at p.heap xs)
unfolding serve
serve_drains index p threads me [] t g h = ([], p, refl, refl)
serve_drains index p threads me (x ∷ xs) t g h =
    elim (libev_processor-Holds index p threads me (x ∷ xs) t g h) [
      | inl (empty, faults) ↦ absurd (ground arith)
      | inr (item, rest, p1, threads1, me1, split, run, t1, g1, h1, v, l, o) ↦
          let same_item : x ≡ item = ground arith in
          let same_rest : rest ≡ xs = ground arith in
          let kept = libev_processor_keeps index p p1 (p.heap item) run in
          let (items, p', later, calls) =
            serve_drains index p1 threads1 me1 xs t1 g1
              (subst (Holds p1.heap me1.new_request_queue) same_rest h1) in
          (
            p.heap item ∷ items,
            p',
            serve-cons index (told_to_end (length xs)) p p1 p' (p.heap item) items true run later,
            ap₂ ◌∷◌ (ap (λ a. call_of (p.heap a)) (sym same_item))
                (calls ∙ calls_at-same p.heap p1.heap xs kept),
          )
    ]
