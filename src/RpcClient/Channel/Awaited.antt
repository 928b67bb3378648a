-- ===== src/RpcClient/Channel/Awaited.antt =====
-- Calls that are awaited: CallMethod of src/rpc_client/rpc_channel.cpp, and what it sends.
use libevrpc.Base.{
  ℕ, suc, ◌≡◌, refl, ap, ◌∙◌, ◌≢◌, ◌⊎◌, inl, inr, Bool, Option, List, true, false, none, some,
  arith, Option-cases, Bool-cases,
}
use libevrpc.Base.Int.{ℤ, is_neg}
use libevrpc.Base.Bytes.{Bytes}
use libevrpc.Base.Fault.{ok}
use libevrpc.Communication.Connect.{tcp_conn_timeout, Attempt, tcp_connect}
use libevrpc.RpcClient.Channel.Attempts.{retry_loop-tcp_connect}
use libevrpc.RpcClient.Controller.{RpcController, is_failed, set_failed-is_failed}
use libevrpc.RpcClient.Channel.{
  Channel, RpcCallParams, Env, connect_failed, parse_response_error, stopped, retry_loop, Exchange,
  replied, failed_with, no_reply, rpc_communication,
}
use libevrpc.RpcClient.Channel.Call.{
  Called, finish_call, call_connected, call_retried, call_address, call_method,
}

-- How a call is told: by its response, with the controller as before, or by the controller.
abbrev pub Tells : Env → ℤ → RpcController → Exchange → Called → Type 0
Tells env fd controller x r =
    (controller' : RpcController) × (r.controller ≡ some controller')
    × (((text : Bytes) × (m : ℕ) × (is_neg fd ≡ false)
          × (x ≡ replied text)
          × (env.parse_response text ≡ some m)
          × (r.response ≡ some m)
          × (controller' ≡ controller))
        ⊎ ((r.response ≡ none) × (is_failed controller' ≡ true)))

finish_call-Tells :
    (env : Env) (fd : ℤ) (controller : RpcController) (c : Channel) (x : Exchange)
    → is_neg fd ≡ false
    → x ≢ no_reply
    → (r : Called) × (finish_call env (some controller) c x ≡ some r) × Tells env fd controller x r
unfolding finish_call
finish_call-Tells env fd controller c no_reply up ne = absurd (ne refl)
finish_call-Tells env fd controller c (failed_with e) up ne =
    (_, refl, (_, refl, inr (refl, set_failed-is_failed (env.text e) controller)))
finish_call-Tells env fd controller c (replied text) up ne =
    elim (Option-cases (env.parse_response text)) [
      | inr (m, parsed) ↦
          rw parsed (_, refl, (_, refl, inl (text, m, up, refl, parsed, refl, refl)))
      | inl fails ↦ rw fails (
        _,
        refl,
        (_, refl, inr (refl, set_failed-is_failed (env.text parse_response_error) controller)),
      )
    ]

call_connected_awaited :
    (env : Env) (fd : ℤ) (call : RpcCallParams) (controller : RpcController) (c : Channel)
    (x : Exchange)
    → is_neg fd ≡ false
    → c.is_channel_async_call ≡ false
    → rpc_communication env.send env.recv call ≡ ok x
    → call_connected env call (some controller) (record c { connect_fd = fd })
      ≡ ok (finish_call env (some controller) (record c { connect_fd = fd }) x)
unfolding call_connected
call_connected_awaited env fd call controller c x up s y = simp (up, s, y)

call_connected-Tells :
    (env : Env) (fd : ℤ) (call : RpcCallParams) (controller : RpcController) (c : Channel)
    (x : Exchange)
    → c.is_channel_async_call ≡ false
    → rpc_communication env.send env.recv call ≡ ok x
    → x ≢ no_reply
    → (r : Called) × (call_connected env call (some controller) (record c { connect_fd = fd })
        ≡ ok (some r))
      × Tells env fd controller x r
unfolding call_connected
call_connected-Tells env fd call controller c x s y ne = elim (Bool-cases (is_neg fd)) [
  | inl down ↦
      rw down
        (_, refl, (_, refl, inr (refl, set_failed-is_failed (env.text connect_failed) controller)))
  | inr up ↦
      let (r, e, tells) =
        finish_call-Tells env fd controller (record c { connect_fd = fd }) x up ne in
      (r, call_connected_awaited env fd call controller c x up s y ∙ ap ok e, tells)
]

call_method_connected :
    (env : Env) (fuel tries : ℕ) (fd : ℤ) (call : RpcCallParams) (controller : RpcController)
    (c : Channel) (addr port : Bytes)
    → c.center_client_heartbeat ≡ none
    → c.addr ≡ some addr
    → c.port ≡ some port
    → retry_loop (env.connect addr) fuel 0 c.try_time ≡ stopped fd tries
    → call_method env fuel call (some controller) c
      ≡ call_connected env call (some controller) (record c { connect_fd = fd })
unfolding call_method call_retried call_address
call_method_connected env fuel tries fd call controller c addr port h a p e = ground arith

-- CallMethod on a channel to a single server whose pointer to a heartbeat is NULL and that is not
-- asynchronous, when RpcCommunication comes to an end, returns after one attempt to connect, and its
-- controller tells the outcome. Either TcpConnect gave a descriptor, RpcRecv returned anything but
-- ERROR_RECV, be it for a peer that closed before its answer was complete, and the text that it left
-- parses to the response; then the controller is as before. Or there is no response, and the
-- controller has failed. NonBlockMode fails on the number -999.
pub call_method-Tells :
    (env : Env) (fuel : ℕ) (block_ok : ℤ → Bool) (overtime : ℤ)
    (attempts : ℕ → Option (List Attempt)) (call : RpcCallParams) (controller : RpcController)
    (c : Channel) (addr port : Bytes) (x : Exchange)
    → c.center_client_heartbeat ≡ none
    → c.addr ≡ some addr
    → c.port ≡ some port
    → c.is_channel_async_call ≡ false
    → block_ok tcp_conn_timeout ≡ false
    → env.connect addr ≡ (λ i. (tcp_connect block_ok overtime (attempts i)).0)
    → rpc_communication env.send env.recv call ≡ ok x
    → x ≢ no_reply
    → (r : Called) × (call_method env (suc fuel) call (some controller) c ≡ ok (some r))
      × Tells env (tcp_connect block_ok overtime (attempts 0)).0 controller x r
call_method-Tells env fuel block_ok overtime attempts call controller c addr port x h a p s bad con
      y ne =
    let fd = (tcp_connect block_ok overtime (attempts 0)).0 in
    let once : retry_loop (env.connect addr) (suc fuel) 0 c.try_time ≡ stopped fd 1 =
      rw con (retry_loop-tcp_connect block_ok overtime attempts fuel c.try_time bad) in
    let (r, done, tells) = call_connected-Tells env fd call controller c x s y ne in
    (
      r,
      call_method_connected env (suc fuel) 1 fd call controller c addr port h a p once ∙ done,
      tells,
    )
