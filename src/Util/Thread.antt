-- ===== src/Util/Thread.antt =====
-- The thread wrapper of src/util/thread.h. `alive` is what pthread_kill(tid_, 0) finds, and changes
-- when the thread ends; the results of the pthread calls are arguments.
pub mod Laws
use libevrpc.Base.{Bool, true, false, ◌||◌, not, if◌then◌else◌}

pub record Thread : Type 0 where
  pub thread_running : Bool
  pub alive : Bool

abbrev pub fresh : Thread
fresh = record { thread_running = false; alive = false }

-- `created`: pthread_create returns 0.
unfoldable pub start : Bool → Thread → Thread × Bool
start created t =
    if t.thread_running
    then (t, true)
    else if created
    then (record { thread_running = true; alive = true }, true)
    else (t, false)

pub is_alive : Thread → Bool
is_alive t = t.alive

-- `cancelled`: pthread_cancel returns 0. A cancelled thread ends.
unfoldable pub stop : Bool → Thread → Thread × Bool
unfolding is_alive
stop cancelled t =
    if not (is_alive t) || not t.thread_running
    then (t, true)
    else if cancelled
    then (record { thread_running = false; alive = false }, true)
    else (t, false)

-- `joined`: pthread_join returns 0, when the thread has ended.
unfoldable pub wait : Bool → Thread → Thread × Bool
unfolding is_alive
wait joined t =
    if not (is_alive t) || not t.thread_running
    then (t, true)
    else if joined
    then (record t { alive = false }, true)
    else (t, false)

-- The hook returns: Run has ended. Nothing resets `thread_running_`.
unfoldable pub run_ends : Thread → Thread
run_ends t = record t { alive = false }
