-- ===== src/RpcServer/Calls.antt =====
-- A call on its way from the client to the server: RpcCommunication of
-- src/rpc_client/rpc_channel.cpp against RpcProcessor of src/rpc_server/rpc_server.cpp.
use mathlib.Core.Path.{subst}
use libevrpc.Base.{
  ℕ, zero, suc, ◌%◌, ◌^◌, ◌<◌, ◌≡◌, refl, ap, ◌∙◌, ◌≢◌, Bool, true, false, none, some, List, length,
  arith,
}
use libevrpc.Base.Int.{ℤ, pos, signed32}
use libevrpc.Base.Bytes.{Bytes, NoNul, nat_key}
use libevrpc.Base.HashMap.{find}
use libevrpc.Base.Fault.{ok, fault}
use libevrpc.Util.Hash.{bkdr_hash}
use libevrpc.Util.Hash.Laws.{bkdr_hash-lt}
use libevrpc.Communication.{Sent, RecvResult, rpc_send, wire_id}
use libevrpc.Communication.RoundTrip.{Delivers}
use libevrpc.Communication.Transfer.{rpc_recv-rpc_send}
use libevrpc.RpcClient.Channel.{call_sent}
use libevrpc.RpcServer.{
  RpcMethod, CallBackParams, RpcServer, Env, receive_call, find_call, rpc_processor,
}
use libevrpc.RpcServer.Processor.{rpc_processor_found}

signed32_small : (h : ℕ) → h < 2 ^ 31 → signed32 h ≡ pos h
signed32_small h l = ground arith

call_sent_hash :
    (works : ℕ → Bool) (name text : Bytes)
    → call_sent works name text ≡ rpc_send works (pos (bkdr_hash name)) text false
unfolding call_sent
call_sent_hash works name text =
    ap (λ id. rpc_send works id text false) (signed32_small (bkdr_hash name) (bkdr_hash-lt name))

receive_call-call_sent :
    (env : Env) (fd : ℤ) (s : RpcServer) (works : ℕ → Bool) (name text : Bytes)
    {rest : List RecvResult}
    → s.reader_threads ≡ none
    → ((k : ℕ) → works k ≡ true)
    → length text < 2 ^ 31
    → length text % 511 ≢ 0
    → NoNul text
    → Delivers rest (call_sent works name text).frames (env.recv fd)
    → receive_call env fd s ≡ ok (some (wire_id (pos (bkdr_hash name)), text))
unfolding receive_call
receive_call-call_sent env fd s works name text {rest} readers w small size nul d =
    let d' =
      subst (λ (x : Sent). Delivers rest x.frames (env.recv fd)) (call_sent_hash works name text)
        d in
    let (t, got, same) =
      rpc_recv-rpc_send works text false false w small (bkdr_hash name) size (bkdr_hash-lt name)
        d' in
    rw (readers, got)
      (ap (λ (x : Bytes). ok (some (wire_id (pos (bkdr_hash name)), x))) (same.1 nul))

wire_id_nonzero : (n : ℕ) → n ≢ 0 → wire_id (pos n) ≡ pos n
wire_id_nonzero zero ne = absurd (ne refl)
wire_id_nonzero (suc n) ne = refl

find_call_hash :
    (env : Env) (s : RpcServer) (h r : ℕ) (text : Bytes) (m : RpcMethod)
    → s.reader_threads ≡ none
    → h < 2 ^ 31
    → find h s.method_hashmap ≡ some m
    → env.parse_request m text ≡ some r
    → find_call env s (pos h, text) ≡ some (m, r)
unfolding find_call
find_call_hash env s h r text m readers l f parse =
    let e : h % 2 ^ 32 ≡ h = omega arith in rw (readers, e, f, parse)

-- A call whose method is in the table arrives as it was made at a server without readers, when the
-- request of the client has no NUL byte, its size is below 2^31 and no multiple of 511, all send()
-- calls work, each recv() of the server returns exactly one whole frame, in the order in which they
-- were sent, or EAGAIN, and the name does not hash to 0. The server gets the hash of the name and the
-- bytes of the request, and finds the method that is registered under that hash, and the request,
-- which parses; and RpcProcessor then reads through NULL.
pub rpc_processor-call_sent :
    (env : Env) (arg : ℕ) (cb : CallBackParams) (s : RpcServer) (works : ℕ → Bool)
    (name text : Bytes) {rest : List RecvResult} (m : RpcMethod) (r : ℕ)
    → find arg s.params ≡ some cb
    → cb.has_server ≡ true
    → s.reader_threads ≡ none
    → ((k : ℕ) → works k ≡ true)
    → length text < 2 ^ 31
    → length text % 511 ≢ 0
    → NoNul text
    → bkdr_hash name ≢ 0
    → Delivers rest (call_sent works name text).frames (env.recv cb.event_fd)
    → find (bkdr_hash name) s.method_hashmap ≡ some m
    → env.parse_request m text ≡ some r
    → (receive_call env cb.event_fd s ≡ ok (some (pos (bkdr_hash name), text)))
      × (find_call env s (pos (bkdr_hash name), text) ≡ some (m, r))
      × (rpc_processor env arg s ≡ fault)
rpc_processor-call_sent env arg cb s works name text m r p h readers w small size nul nz d f parse =
    let id : wire_id (pos (bkdr_hash name)) ≡ pos (bkdr_hash name) =
      wire_id_nonzero (bkdr_hash name) nz in
    let got =
      receive_call-call_sent env cb.event_fd s works name text readers w small size nul d
      ∙ ap (λ (x : ℤ). ok (some (x, text))) id in
    let found =
      find_call_hash env s (bkdr_hash name) r text m readers (bkdr_hash-lt name) f parse in
    (got, found, rpc_processor_found env arg cb s (pos (bkdr_hash name), text) (m, r) p h got found)
