-- ===== src/RpcCenter/Threads.antt =====
-- The loops of src/rpc_center/{election,leader,reporter}_thread.cpp. A loop runs over the rounds
-- that it gets, each with its surroundings; its result tells whether it has ended. The queues
-- stand in the state of the center, and sleeping is left out.
pub mod GivesUp
mod Tests
use libevrpc.Base.{
  ℕ, ◌-◌, Bool, true, false, Option, none, some, List, [], ◌∷◌, ◌++◌, ◌==◌, if◌then◌else◌, not, ltb,
}
use libevrpc.Base.Int.{ℤ, is_neg}
use libevrpc.Base.Fault.{Run, ok, fault, ◌>>=◌, deref}
use libevrpc.Proto.{CentersProto}
use libevrpc.RpcCenter.{
  MessageThread, Effect, closed, RpcCenter, Env, add_effects, set_fast_leader_running,
}
use libevrpc.RpcCenter.Election.Rounds.{start_fast_leader_election}
use libevrpc.RpcCenter.Process.{process_center_data, close}
use libevrpc.RpcCenter.Requests.{reporter_processor}

-- PopElectionMessage and PopFollowerMessage.
abbrev pub pop_message : MessageThread → Run (Option (ℤ × CentersProto) × MessageThread)
pop_message t = do
  q ← deref t.queue
  ok (elim q [ [] ↦ (none, t) | m ∷ rest ↦ (some m, record t { queue = some rest }) ])

-- Destory
abbrev pub destory : MessageThread → MessageThread
destory t = record t { queue = none }

-- `if (NULL == queue)` at the head of Run.
abbrev pub open_queue : MessageThread → MessageThread
open_queue t = record t { queue = elim t.queue [ none ↦ some [] | some q ↦ some q ] }

abbrev pub put_election : MessageThread → RpcCenter → RpcCenter
put_election t c = record c { election_thread = some t }

abbrev pub put_leader : MessageThread → RpcCenter → RpcCenter
put_leader t c = record c { leader_thread = some t }

-- The message is processed, which closes the descriptor, and the descriptor closed again.
abbrev pub process_message : Env → ℤ × CentersProto → RpcCenter → Run RpcCenter
process_message env m c = do done ← process_center_data env m.0 m.1 c; ok (close m.0 done.0)

-- What is pushed into the queue before a round, and the surroundings of the round.
pub record Round : Type 0 where
  pub arrived : List (ℤ × CentersProto)
  pub env : Env

abbrev pub push_all : List (ℤ × CentersProto) → MessageThread → Run MessageThread
push_all ms t = do q ← deref t.queue; ok (record t { queue = some (q ++ ms) })

-- `while (running_)`, then Destory and SetFastLeaderRunning(false).
pub election_loop : List Round → RpcCenter → Run (RpcCenter × Bool)
election_loop [] c = ok (c, false)
election_loop (round ∷ rounds) c = do
  t0 ← deref c.election_thread
  t ← push_all round.arrived t0
  let rest : Run (RpcCenter × Bool) = (do
    popped ← pop_message t
    c' ← (elim popped.0 [
      | none ↦ ok (put_election t c)
      | some m ↦ process_message round.env m (put_election popped.1 c)
    ])
    election_loop rounds c')
  (if t.running
      then rest
      else ok (set_fast_leader_running false (put_election (destory t) c), true))

unfoldable pub election_run : List Round → RpcCenter → Run (RpcCenter × Bool)
unfolding election_loop
election_run rounds c = do
  t ← deref c.election_thread
  election_loop rounds (put_election (open_queue t) c)

pub leader_loop : List Round → RpcCenter → Run (RpcCenter × Bool)
leader_loop [] c = ok (c, false)
leader_loop (round ∷ rounds) c = do
  t0 ← deref c.leader_thread
  t ← push_all round.arrived t0
  let rest : Run (RpcCenter × Bool) = (do
    popped ← pop_message t
    c' ← (elim popped.0 [
      | none ↦ ok (put_leader t c)
      | some m ↦ process_message round.env m (put_leader popped.1 c)
    ])
    leader_loop rounds c')
  (if t.running then rest else ok (put_leader (destory t) c, true))

unfoldable pub leader_run : List Round → RpcCenter → Run (RpcCenter × Bool)
unfolding leader_loop
leader_run rounds c = do t ← deref c.leader_thread; leader_loop rounds (put_leader (open_queue t) c)

-- A round of the reporter: what TcpConnect gives, and gives again for the new attempt.
pub record Report : Type 0 where
  pub conn_fd : ℤ
  pub again_fd : ℤ
  pub env : Env

-- The counters after the second half of a round, and the descriptor that it closes.
abbrev pub retried : Report → ℕ → ℕ → ℕ × ℕ × ℤ
retried r failed_cnt retry_time =
    if ltb 0 failed_cnt
    then (failed_cnt, retry_time, r.conn_fd)
    else if is_neg r.again_fd
    then (failed_cnt, retry_time - 1, r.again_fd)
    else (10, 3, r.again_fd)

-- `failed_cnt` and `retry_time` count down to 0 and no further.
pub reporter_loop : List Report → ℕ → ℕ → RpcCenter → Run (RpcCenter × Bool)
reporter_loop [] failed_cnt retry_time c = ok (c, false)
reporter_loop (r ∷ rounds) failed_cnt retry_time c = do
  reported ← (if ltb 0 failed_cnt then reporter_processor r.env r.conn_fd c else ok (c, true))
  let failed : ℕ = if reported.1 then failed_cnt else failed_cnt - 1
  let after = retried r failed retry_time
  let rest = reporter_loop rounds after.0 after.1 (close after.2 reported.0)
  (if after.1 == 0
      then (do
        elected ← start_fast_leader_election r.env reported.0
        ok (close after.2 elected.0, true))
      else rest)

unfoldable pub reporter_run : Bool → List Report → RpcCenter → Run (RpcCenter × Bool)
unfolding reporter_loop
reporter_run reporter_running rounds c =
    if reporter_running then reporter_loop rounds 10 3 c else ok (c, true)
