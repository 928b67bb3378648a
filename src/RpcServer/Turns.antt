-- ===== src/RpcServer/Turns.antt =====
-- In which order the calls of RpcCall in src/rpc_server/rpc_server.cpp go to the workers.
use native.Mathlib.Nat.{mod-add-mod}
use libevrpc.Base.{
  ℕ, zero, suc, ◌+◌, ◌%◌, ◌≡◌, refl, sym, ap, ◌∙◌, ◌≢◌, Bool, true, false, ◌⊎◌, if◌then◌else◌, some,
  List, [], ◌∷◌, ◌++◌, length, length-append, arith, inl, inr,
}
use libevrpc.Base.Int.{ℤ, pos, negsuc}
use libevrpc.Base.Fault.{ok, bind_ok}
use libevrpc.LibevThreadPool.{LibevThreadPool, next_thread, dispatch_rpc_call}
use libevrpc.LibevThreadPool.Spread.{dispatch_rpc_call-Turns}
use libevrpc.Base.Bytes.{nat_key}
use libevrpc.Base.HashMap.{put}
use libevrpc.LibevThreadPool.Refused.{dispatch_rpc_call-refused}
use libevrpc.RpcServer.{
  new_params, Effect, closed, RpcServer, Env, rpc_call, call_dispatched, processor_address,
}

-- Connections that RpcCall takes one after the other; a refused one is closed, and counts for
-- nothing.
pub data Calls : ℕ → RpcServer → RpcServer → Type 0 where
  no_calls : (s : RpcServer) → Calls 0 s s
  accepted :
      {k : ℕ} {s q : RpcServer} (env : Env) (arg : ℕ) (fd : ℤ) (r : RpcServer)
      → Calls k s q
      → rpc_call env arg fd q ≡ ok r
      → r.effects ≡ q.effects
      → Calls (suc k) s r
  refused :
      {k : ℕ} {s q : RpcServer} (env : Env) (arg : ℕ) (fd : ℤ) (r : RpcServer)
      → Calls k s q
      → rpc_call env arg fd q ≡ ok r
      → r.effects ≡ q.effects ++ closed fd ∷ []
      → Calls k s r

-- The number of the thread that the k-th call of a pool of n threads goes to; -1 before the first.
abbrev pub last_turn : ℕ → ℕ → ℤ
last_turn zero n = negsuc 0
last_turn (suc k) n = pos (k % n)

abbrev pub AtTurn : ℕ → ℕ → RpcServer → Type 0
AtTurn k n s =
    (p : LibevThreadPool) × (s.worker_threads ≡ some p)
    × (p.num_threads ≡ n)
    × (p.current_thread ≡ last_turn k n)

one_more_effect : (es : List Effect) (e : Effect) → es ++ e ∷ [] ≢ es
one_more_effect es e h =
    let l : length (es ++ e ∷ []) ≡ length es + 1 = length-append es (e ∷ []) in
    let l' : length (es ++ e ∷ []) ≡ length es = ap length h in absurd (omega (arith, l, l'))

next_turn : (k n : ℕ) → pos (next_thread (last_turn k n) % n) ≡ last_turn (suc k) n
next_turn zero n = refl
next_turn (suc k) n = ap pos (mod-add-mod k n 1 ∙ ap (λ m. m % n) (omega arith))

dispatched_server :
    (arg : ℕ) (fd : ℤ) (s r : RpcServer) (p : LibevThreadPool) (ret : Bool)
    → ok (call_dispatched arg fd s (p, ret)) ≡ ok r
    → (r.worker_threads ≡ some p)
      × (r.effects ≡ (if ret then s.effects else s.effects ++ closed fd ∷ []))
unfolding call_dispatched
dispatched_server arg fd s r p true e = ground (arith, e)
dispatched_server arg fd s r p false e = ground (arith, e)

-- What RpcCall does with a connection, by the answer of the worker pool.
rpc_call_cases :
    (env : Env) (arg : ℕ) (fd : ℤ) (s r : RpcServer) (p : LibevThreadPool)
    → s.worker_threads ≡ some p
    → rpc_call env arg fd s ≡ ok r
    → (p' : LibevThreadPool) × (ret : Bool) × (dispatch_rpc_call env.malloc env.write_ok
          processor_address arg p
        ≡ ok (p', ret))
      × (r.worker_threads ≡ some p')
      × (r.effects ≡ (if ret then s.effects else s.effects ++ closed fd ∷ []))
unfolding rpc_call
rpc_call_cases env arg fd s r p w e =
    let s' = record s { params = put arg (new_params fd) s.params } in
    let ((p', ret), run, done) =
      bind_ok (dispatch_rpc_call env.malloc env.write_ok processor_address arg p)
        (λ d. ok (call_dispatched arg fd s' d)) r (rw w at e) in
    let (pool, effects) = dispatched_server arg fd s' r p' ret done in (p', ret, run, pool, effects)

-- Whether a call was accepted or refused, and whose turn it is next.
abbrev Advances : ℕ → ℕ → ℤ → RpcServer → RpcServer → Type 0
Advances k n fd s r =
    ((r.effects ≡ s.effects) × AtTurn (suc k) n r)
    ⊎ ((r.effects ≡ s.effects ++ closed fd ∷ []) × AtTurn k n r)

turn_by :
    (k n arg : ℕ) (env : Env) (fd : ℤ) (s r : RpcServer) (p p' : LibevThreadPool) (ret : Bool)
    → p.num_threads ≡ n
    → p.current_thread ≡ last_turn k n
    → dispatch_rpc_call env.malloc env.write_ok processor_address arg p ≡ ok (p', ret)
    → r.worker_threads ≡ some p'
    → r.effects ≡ (if ret then s.effects else s.effects ++ closed fd ∷ [])
    → Advances k n fd s r
turn_by k n arg env fd s r p p' true num cur run pool effects =
    let (current, number, some_threads) =
      dispatch_rpc_call-Turns env.malloc env.write_ok processor_address arg p p' run in
    let turn : pos (next_thread p.current_thread % p.num_threads) ≡ last_turn (suc k) n =
      rw (num, cur) (next_turn k n) in
    inl (effects, (p', pool, number ∙ num, current ∙ turn))
turn_by k n arg env fd s r p p' false num cur run pool effects =
    let (number, current) =
      dispatch_rpc_call-refused env.malloc env.write_ok processor_address arg p p' run in
    inr (effects, (p', pool, number ∙ num, current ∙ cur))

rpc_call-Advances :
    (k n arg : ℕ) (env : Env) (fd : ℤ) (s r : RpcServer)
    → AtTurn k n s
    → rpc_call env arg fd s ≡ ok r
    → Advances k n fd s r
rpc_call-Advances k n arg env fd s r (p, w, num, cur) e =
    let (p', ret, run, pool, effects) = rpc_call_cases env arg fd s r p w e in
    turn_by k n arg env fd s r p p' ret num cur run pool effects

Calls-AtTurn : {k : ℕ} {s r : RpcServer} (n : ℕ) → Calls k s r → AtTurn 0 n s → AtTurn k n r
Calls-AtTurn n (no_calls s) t = t
Calls-AtTurn n (accepted {k} {s} {q} env arg fd r calls run same) t =
    elim (rpc_call-Advances k n arg env fd q r (Calls-AtTurn n calls t) run) [
      | inl (effects, turn) ↦ turn
      | inr (effects, turn) ↦ absurd (one_more_effect q.effects (closed fd) (sym effects ∙ same))
    ]
Calls-AtTurn n (refused {k} {s} {q} env arg fd r calls run closes) t =
    elim (rpc_call-Advances k n arg env fd q r (Calls-AtTurn n calls t) run) [
      | inl (effects, turn) ↦ absurd (one_more_effect q.effects (closed fd) (sym closes ∙ effects))
      | inr (effects, turn) ↦ turn
    ]
