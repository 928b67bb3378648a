-- ===== src/Util/Thread/Laws.antt =====
-- The life of a thread, src/util/thread.h.
use libevrpc.Base.{◌≡◌, Bool, true, false, arith}
use libevrpc.Util.Thread.{Thread, start, stop, wait, run_ends, fresh}

-- What the operations and the end of Run can do to a thread.
pub data Step : Thread → Thread → Type 0 where
  starts : (created : Bool) (t : Thread) → Step t (start created t).0
  stops : (cancelled : Bool) (t : Thread) → Step t (stop cancelled t).0
  waits : (joined : Bool) (t : Thread) → Step t (wait joined t).0
  ends : (t : Thread) → Step t (run_ends t)

pub data Reach (s : Thread) : Thread → Type 0 where
  here : Reach s s
  next : {t u : Thread} → Reach s t → Step t u → Reach s u

Step-alive :
    {t u : Thread}
    → Step t u
    → (t.alive ≡ true → t.thread_running ≡ true)
    → u.alive ≡ true
    → u.thread_running ≡ true
unfolding start stop wait run_ends
Step-alive (starts c t) h = ground arith
Step-alive (stops c t) h = ground arith
Step-alive (waits c t) h = ground arith
Step-alive (ends t) h = ground arith

-- From a new object on, a thread that is alive is marked as running.
pub Reach-alive : {t : Thread} → Reach fresh t → t.alive ≡ true → t.thread_running ≡ true
Reach-alive here = λ e. cc
Reach-alive (next r s) = Step-alive s (Reach-alive r)

-- Once Run has ended by itself, Start reports success and starts no thread, also after Stop and
-- Wait, and whatever pthread_create would do.
pub start_after_end :
    (t : Thread) (created cancelled joined : Bool)
    → t.thread_running ≡ true
    → let u = (wait joined (stop cancelled (run_ends t)).0).0 in
      ((start created u).1 ≡ true) × ((start created u).0.alive ≡ false)
unfolding start stop wait run_ends
start_after_end t created cancelled joined h = ground arith
