-- ===== src/RpcServer/Processor.antt =====
-- What RpcProcessor and RpcWriter of src/rpc_server/rpc_server.cpp do with a call.
use libevrpc.Base.{
  ℕ, ◌≡◌, refl, ap, ◌⊎◌, inl, inr, true, false, Option, none, some, List, [], ◌∷◌, ◌++◌, arith,
  Option-cases,
}
use libevrpc.Base.Int.{ℤ, pos, negsuc, word32}
use libevrpc.Base.Bytes.{Bytes, nat_key}
use libevrpc.Base.HashMap.{find}
use libevrpc.Base.Fault.{Run, ok, fault}
use libevrpc.Communication.{rpc_send}
use libevrpc.Communication.Faults.{rpc_send_closes}
use libevrpc.LibevThreadPool.{LibevThreadPool}
use libevrpc.RpcServer.{
  RpcMethod, CallBackParams, Effect, closed, sent, add_effects, sent_effects, RpcServer, Env,
  reject, receive_call, find_call, answer_call, process_call, rpc_processor,
}
use libevrpc.RpcServer.Methods.{IsTable, negative_unknown}

Run-cases : {A : Type 0} (r : Run A) → (r ≡ fault) ⊎ ((a : A) × (r ≡ ok a))
Run-cases fault = inl refl
Run-cases (ok a) = inr (a, refl)

-- The ways in which RpcProcessor can end.
abbrev pub Ends : Env → ℕ → CallBackParams → RpcServer → Type 0
Ends env arg cb s =
    ((receive_call env cb.event_fd s ≡ ok none) × (rpc_processor env arg s ≡ ok (s, false)))
    ⊎ ((receive_call env cb.event_fd s ≡ fault) × (rpc_processor env arg s ≡ fault))
    ⊎ ((call : ℤ × Bytes) × (receive_call env cb.event_fd s ≡ ok (some call))
        × (((find_call env s call ≡ none)
              × (rpc_processor env arg s ≡ ok (reject arg cb.event_fd s, true)))
            ⊎ ((found : RpcMethod × ℕ) × (find_call env s call ≡ some found)
                × (rpc_processor env arg s ≡ fault))))

-- RpcProcessor answers no call: it waits for ever in RpcRecv, or it closes the connection and
-- deletes the parameters of the call, once each, with nothing sent, or it faults. It faults just
-- where RpcRecv does, and where the call names a method of the table and its request parses.
pub rpc_processor_cases :
    (env : Env) (arg : ℕ) (cb : CallBackParams) (s : RpcServer)
    → find arg s.params ≡ some cb
    → cb.has_server ≡ true
    → Ends env arg cb s
unfolding rpc_processor process_call answer_call
rpc_processor_cases env arg cb s p h = elim (Run-cases (receive_call env cb.event_fd s)) [
  | inl e ↦ inr (inl (e, rw (p, h, e)))
  | inr (o, e) ↦ elim (Option-cases o) [
    | inl e' ↦ inl (rw e' at e, ground arith)
    | inr (call, e') ↦ inr (
        inr (
          call,
          rw e' at e,
          elim (Option-cases (find_call env s call)) [
            | inl n ↦ inl (n, ground arith)
            | inr (found, f) ↦ inr (found, f, ground arith)
          ],
        ))
  ]
]

pub rpc_processor_found :
    (env : Env) (arg : ℕ) (cb : CallBackParams) (s : RpcServer) (call : ℤ × Bytes)
    (found : RpcMethod × ℕ)
    → find arg s.params ≡ some cb
    → cb.has_server ≡ true
    → receive_call env cb.event_fd s ≡ ok (some call)
    → find_call env s call ≡ some found
    → rpc_processor env arg s ≡ fault
unfolding rpc_processor process_call answer_call
rpc_processor_found env arg cb s call found p h e f = ground arith

-- A server with a pool of readers closes every connection that a worker gets: the readers hand over
-- no id, and -1 is the hash of no method.
pub rpc_processor_readers :
    (env : Env) (arg : ℕ) (cb : CallBackParams) (s : RpcServer) (readers : LibevThreadPool)
    → IsTable s
    → find arg s.params ≡ some cb
    → cb.has_server ≡ true
    → s.reader_threads ≡ some readers
    → rpc_processor env arg s ≡ ok (reject arg cb.event_fd s, true)
unfolding rpc_processor process_call receive_call find_call
rpc_processor_readers env arg cb s readers t p h r =
    let unknown : find (word32 (negsuc 0)) s.method_hashmap ≡ none =
      negative_unknown s 0 t (omega arith) in
    ground (arith, unknown)

-- The descriptors that are closed, in order.
pub closes : List Effect → List ℤ
closes [] = []
closes (closed fd ∷ es) = fd ∷ closes es
closes (sent fd frames ∷ es) = closes es

closes-append : (es fs : List Effect) → closes (es ++ fs) ≡ closes es ++ closes fs
unfolding closes
closes-append [] fs = refl
closes-append (closed fd ∷ es) fs = ap (◌∷◌ fd) (closes-append es fs)
closes-append (sent fd frames ∷ es) fs = closes-append es fs

-- Where the method is at hand and there is no pool of writers, the call ends with its connection
-- closed just once: with the frames of the response sent as far as send() works, or, where the
-- response cannot be serialized, with nothing sent and the parameters deleted.
pub answer_call_closes :
    (env : Env) (arg : ℕ) (cb : CallBackParams) (m : RpcMethod) (request : Option ℕ) (s : RpcServer)
    → s.writer_threads ≡ none
    → (s' : RpcServer) × (answer_call env arg cb (some m) request s ≡ ok s')
      × (closes s'.effects ≡ closes s.effects ++ cb.event_fd ∷ [])
      × (((env.serialize (env.call_method m request) ≡ none) × (s' ≡ reject arg cb.event_fd s))
          ⊎ ((text : Bytes) × (env.serialize (env.call_method m request) ≡ some text)
              × (s'.params ≡ s.params)
              × (s'.effects
                  ≡ s.effects
                    ++ sent cb.event_fd (rpc_send (env.send cb.event_fd) (pos 0) text true).frames
                      ∷ closed cb.event_fd
                      ∷ [])))
unfolding answer_call closes
answer_call_closes env arg cb m request s w =
    elim (Option-cases (env.serialize (env.call_method m request))) [
      | inl e ↦ (reject arg cb.event_fd s, ground arith, closes-append s.effects _, inl (e, refl))
      | inr (text, e) ↦
          let c = rpc_send_closes (env.send cb.event_fd) 0 text in
          (
            add_effects
                (sent_effects cb.event_fd (rpc_send (env.send cb.event_fd) (pos 0) text true)) s,
            ground arith,
            rw c (closes-append s.effects _),
            inr (text, e, refl, rw c),
          )
    ]
