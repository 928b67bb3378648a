-- ===== src/RpcCenter/Threads/GivesUp.antt =====
-- When the reporter gives a leader up, src/rpc_center/reporter_thread.cpp.
use libevrpc.Base.{
  Bool-cases, inl, inr, ◌-◌, ◌==◌, ltb, ◌∙◌, ℕ, zero, suc, ◌+◌, ◌≡◌, ◌≤◌, ◌<◌, refl, Bool, true,
  false, List, [], ◌∷◌, arith, length, All,
}
use libevrpc.Base.Int.{is_neg}
use libevrpc.Base.Fault.{Run, ok, ◌>>=◌}
use libevrpc.RpcCenter.{RpcCenter}
use libevrpc.RpcCenter.Election.Rounds.{start_fast_leader_election}
use libevrpc.RpcCenter.Process.{close}
use libevrpc.RpcCenter.Requests.{reporter_processor}
use libevrpc.RpcCenter.Requests.Leader.{SameElection}
use libevrpc.RpcCenter.Threads.{Report, reporter_loop, reporter_run}

-- A round in which the leader cannot be reached: the report cannot be sent, and no new connection
-- is made.
abbrev pub Unreachable : Report → Type 0
Unreachable r =
    (r.env.serialize_ok ≡ true) × (r.env.send_ok r.conn_fd ≡ false) × (is_neg r.again_fd ≡ true)

-- What a loop that gives up does last: it starts an election, and closes the new descriptor.
abbrev pub gives_up : Report → RpcCenter → Run (RpcCenter × Bool)
gives_up r c = do
  elected ← start_fast_leader_election r.env c
  ok (close r.again_fd elected.0, true)

abbrev pub GivesUp : RpcCenter → Run (RpcCenter × Bool) → Type 0
GivesUp c run = (last : Report) × (c' : RpcCenter) × SameElection c c' × (run ≡ gives_up last c')

GivesUp-trans :
    (c c1 : RpcCenter) (run : Run (RpcCenter × Bool))
    → SameElection c c1
    → GivesUp c1 run
    → GivesUp c run
GivesUp-trans c c1 run (s, o, l, k) (last, c', (s', o', l', k'), e) =
    (last, c', (s' ∙ s, o' ∙ o, l' ∙ l, k' ∙ k), e)

unsent :
    (r : Report) (c : RpcCenter)
    → Unreachable r
    → reporter_processor r.env r.conn_fd c ≡ ok (close r.conn_fd c, false)
unfolding reporter_processor
unsent r c (s, f, a) = rw (s, f)

-- Only new attempts are left.
reporter_loop_retry :
    (rounds : List Report) (retry_time : ℕ) (c : RpcCenter)
    → All Unreachable rounds
    → retry_time ≤ length rounds
    → 0 < retry_time
    → GivesUp c (reporter_loop rounds 0 retry_time c)
unfolding reporter_loop
reporter_loop_retry [] t c h le lt = absurd (omega arith)
reporter_loop_retry (r ∷ rounds) t c h le lt = elim (Bool-cases (t - 1 == 0)) [
  | inl last ↦ (r, c, (refl, refl, refl, refl), rw (h.0.2, last))
  | inr more ↦
      rw (h.0.2, more)
        (GivesUp-trans c (close r.again_fd c) _ (refl, refl, refl, refl)
          (reporter_loop_retry rounds (t - 1) (close r.again_fd c) h.1 (omega arith)
            (ground arith)))
]

reporter_loop_fail :
    (rounds : List Report) (failed_cnt retry_time : ℕ) (c : RpcCenter)
    → All Unreachable rounds
    → failed_cnt + retry_time ≤ length rounds
    → 0 < retry_time
    → GivesUp c (reporter_loop rounds failed_cnt retry_time c)
unfolding reporter_loop
reporter_loop_fail [] f t c h le lt = absurd (omega arith)
reporter_loop_fail (r ∷ rounds) zero t c h le lt =
    reporter_loop_retry (r ∷ rounds) t c h (omega arith) lt
reporter_loop_fail (r ∷ rounds) (suc zero) t c h le lt =
    let c1 = close r.conn_fd c in
    elim (Bool-cases (t - 1 == 0)) [
      | inl last ↦ rw (unsent r c h.0, h.0.2, last) (r, c1, (refl, refl, refl, refl), refl)
      | inr more ↦
          rw (unsent r c h.0, h.0.2, more)
            (GivesUp-trans c (close r.again_fd c1) _ (refl, refl, refl, refl)
              (reporter_loop_retry rounds (t - 1) (close r.again_fd c1) h.1 (omega arith)
                (ground arith)))
    ]
reporter_loop_fail (r ∷ rounds) (suc (suc f)) t c h le lt =
    let c1 = close r.conn_fd c in
    let fewer : suc (suc f) - 1 ≡ suc f = omega arith in
    let left : ltb 0 (suc f) ≡ true = ground arith in
    let goes_on : (t == 0) ≡ false = ground arith in
    let many : ltb 0 (suc (suc f)) ≡ true = ground arith in
    rw (many, unsent r c h.0, fewer, left, goes_on)
      (GivesUp-trans c (close r.conn_fd c1) _ (refl, refl, refl, refl)
        (reporter_loop_fail rounds (suc f) t (close r.conn_fd c1) h.1 (omega arith) lt))

-- A reporter that is running and cannot reach its leader in 13 rounds starts an election, and
-- ends.
pub reporter_run-GivesUp :
    (rounds : List Report) (c : RpcCenter)
    → All Unreachable rounds
    → 13 ≤ length rounds
    → GivesUp c (reporter_run true rounds c)
unfolding reporter_run
reporter_run-GivesUp rounds c h le = reporter_loop_fail rounds 10 3 c h (omega arith) (omega arith)
