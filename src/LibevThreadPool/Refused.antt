-- ===== src/LibevThreadPool/Refused.antt =====
-- A call that DispatchRpcCall of src/rpc_server/libev_thread_pool.cpp refuses.
use libevrpc.Base.{
  ℕ, ◌≡◌, ◌∙◌, sym, Bool, false, Option, none, some, List, arith, Option-cases, inl, inr,
}
use libevrpc.Base.Fault.{ok, bind_ok}
use libevrpc.LibevThreadPool.{
  LibevThreadPool, LibevThread, rq_item_new, give_call, dispatch_new, dispatch_rpc_call,
}
use libevrpc.LibevThreadPool.Spread.{rq_item_new_keeps, dispatch_rpc_call_started}

dispatch_new-refused :
    (write_ok : Bool) (rpc_call arg : ℕ) (threads : List LibevThread)
    (got : LibevThreadPool × Option ℕ) (r : LibevThreadPool)
    → dispatch_new write_ok rpc_call arg threads got ≡ ok (r, false)
    → (r.num_threads ≡ got.0.num_threads) × (r.current_thread ≡ got.0.current_thread)
unfolding dispatch_new give_call
dispatch_new-refused write_ok rpc_call arg threads (p, none) r e = ground (arith, e)
dispatch_new-refused write_ok rpc_call arg threads (p, some item) r e = absurd (ground (arith, e))

-- A pool that refuses a call has the same thread next in turn.
pub dispatch_rpc_call-refused :
    (malloc : Option ℕ) (write_ok : Bool) (rpc_call arg : ℕ) (p r : LibevThreadPool)
    → dispatch_rpc_call malloc write_ok rpc_call arg p ≡ ok (r, false)
    → (r.num_threads ≡ p.num_threads) × (r.current_thread ≡ p.current_thread)
unfolding dispatch_rpc_call
dispatch_rpc_call-refused malloc write_ok rpc_call arg p r e = elim (Option-cases p.libev_threads) [
  | inl not_started ↦ ground (arith, not_started, e)
  | inr (threads, started) ↦
      let (got, new, given) =
        bind_ok (rq_item_new malloc p) (dispatch_new write_ok rpc_call arg threads) (r, false)
          (sym (dispatch_rpc_call_started malloc write_ok rpc_call arg p threads started) ∙ e) in
      let keeps = rq_item_new_keeps malloc p got new in
      let same = dispatch_new-refused write_ok rpc_call arg threads got r given in
      (same.0 ∙ keeps.1, same.1 ∙ keeps.0)
]
