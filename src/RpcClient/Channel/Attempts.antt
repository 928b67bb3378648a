-- ===== src/RpcClient/Channel/Attempts.antt =====
-- The retry loop of Channel::CallMethod, src/rpc_client/rpc_channel.cpp.
use libevrpc.Base.{ℕ, suc, ◌≡◌, refl, inl, inr, Bool, Option, List, true, false, arith, Bool-cases}
use libevrpc.Base.Int.{ℤ, pos, negsuc, eq_ℤ}
use libevrpc.Communication.Connect.{tcp_conn_timeout, Attempt, tcp_connect}
use libevrpc.Communication.Connect.Laws.{tcp_connect-timeout}
use libevrpc.RpcClient.Channel.{stopped, retry_loop}

eq_ℤ-timeout : (a : ℤ) → eq_ℤ a tcp_conn_timeout ≡ true → a ≡ tcp_conn_timeout
eq_ℤ-timeout (pos n) e = absurd (ground arith)
eq_ℤ-timeout (negsuc n) e = ground arith

-- With the descriptors that TcpConnect returns the loop of CallMethod makes exactly one attempt,
-- whatever try_time_ and whatever becomes of the attempt, and the next ones are never made:
-- TcpConnect tells an attempt that ran into the time limit by -1. NonBlockMode fails on the number
-- -999, as it does on every descriptor that is not open.
pub retry_loop-tcp_connect :
    (block_ok : ℤ → Bool) (overtime : ℤ) (attempts : ℕ → Option (List Attempt)) (fuel : ℕ)
    (try_time : ℤ)
    → block_ok tcp_conn_timeout ≡ false
    → let connect : ℕ → ℤ = λ i. (tcp_connect block_ok overtime (attempts i)).0 in
      retry_loop connect (suc fuel) 0 try_time ≡ stopped (connect 0) 1
unfolding retry_loop
retry_loop-tcp_connect block_ok overtime attempts fuel try_time bad =
    let fd = (tcp_connect block_ok overtime (attempts 0)).0 in
    elim (Bool-cases (eq_ℤ fd tcp_conn_timeout)) [
      | inl same ↦
          absurd (tcp_connect-timeout block_ok overtime (attempts 0) bad (eq_ℤ-timeout fd same))
      | inr other ↦ rw other refl
    ]
