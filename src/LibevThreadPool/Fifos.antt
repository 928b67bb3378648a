-- ===== src/LibevThreadPool/Fifos.antt =====
-- The worker pool of src/rpc_server/libev_thread_pool.cpp without its memory: a queue of calls for
-- each thread, whose turn it was last, and the calls that are running.
pub mod Layout
pub mod Represents
pub mod Dispatched
pub mod Running
pub mod Ops
pub mod Steps
pub mod Refines
use libevrpc.Base.{ℕ, ◌%◌, ◌≡◌, ◌≢◌, Option, none, some, List, [], ◌∷◌, ◌++◌, ◌==◌, if◌then◌else◌}
use libevrpc.Base.Int.{ℤ, pos, negsuc}
use libevrpc.LibevThreadPool.{next_thread}

-- The function and the argument of a call.
abbrev pub Job : Type 0
Job = ℕ × ℕ

-- A queue of jobs for each of a number of threads, the index of the thread whose turn it was last,
-- which is -1 before the first job, and the jobs that are running, each under a name of its own
-- and with the index of its thread.
pub record Fifos : Type 0 where
  pub number : ℕ
  pub turn : ℤ
  pub jobs : ℕ → List Job
  pub active : ℕ → Option (ℕ × Job)

-- What a client observes: a job is accepted or refused, or a thread begins or ends one, or is
-- cancelled in one.
pub data Event : Type 0 where
  accepts refuses : Job → Event
  begins ends cancels : ℕ → Job → Event

abbrev pub set_jobs : ℕ → List Job → Fifos → Fifos
set_jobs i js f = record f { jobs = λ j. if j == i then js else f.jobs j }

abbrev pub put_at : ℕ → Job → Fifos → Fifos
put_at i job f = record (set_jobs i (f.jobs i ++ job ∷ []) f) { turn = pos i }

-- A new job goes to the thread that is next in turn.
abbrev pub put_job : Job → Fifos → Fifos
put_job job f = put_at (next_thread f.turn % f.number) job f

abbrev pub set_active : ℕ → Option (ℕ × Job) → Fifos → Fifos
set_active name x f = record f { active = λ a. if name == a then x else f.active a }

-- The histories: jobs are taken in turn, each thread begins its own in their order, a job that
-- begins takes a name that no running job has, and only a running job ends, once.
pub data Serves : Fifos → List Event → Fifos → Type 0 where
  nothing : (f : Fifos) → Serves f [] f
  accepted :
      {f g : Fifos} {es : List Event} (job : Job)
      → f.number ≢ 0
      → Serves (put_job job f) es g
      → Serves f (accepts job ∷ es) g
  refused :
      {f g : Fifos} {es : List Event} (job : Job) → Serves f es g → Serves f (refuses job ∷ es) g
  began :
      {f g : Fifos} {es : List Event} (i name : ℕ) (job : Job) (later : List Job)
      → f.jobs i ≡ job ∷ later
      → f.active name ≡ none
      → Serves (set_active name (some (i, job)) (set_jobs i later f)) es g
      → Serves f (begins i job ∷ es) g
  ended :
      {f g : Fifos} {es : List Event} (i name : ℕ) (job : Job)
      → f.active name ≡ some (i, job)
      → Serves (set_active name none f) es g
      → Serves f (ends i job ∷ es) g
  cancelled :
      {f g : Fifos} {es : List Event} (i name : ℕ) (job : Job)
      → f.active name ≡ some (i, job)
      → Serves (set_active name none f) es g
      → Serves f (cancels i job ∷ es) g

-- n queues without jobs.
abbrev pub idle : ℕ → Fifos
idle n = record { number = n; turn = negsuc 0; jobs = λ i. []; active = λ name. none }
