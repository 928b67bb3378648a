-- ===== src/Communication/Faults.antt =====
-- The error paths of RpcSend and RpcRecv, src/util/rpc_communication.cpp.
use libevrpc.Base.{
  ℕ, zero, suc, ◌+◌, ◌-◌, ◌<◌, ◌≤◌, ◌≡◌, ap, ◌∙◌, Bool, true, false, List, none, ◌∷◌, length, take,
  arith, append-nil, ◌==◌, inl, inr, Bool-cases,
}
use libevrpc.Base.Int.{ℤ, pos, negsuc, negate}
use libevrpc.Base.Bytes.{Bytes, NoNul, cstr-none}
use libevrpc.Communication.{
  Sent, cons_frame, full_blocks, wire_id, rpc_send, send_blocks, meta_data, RecvResult, overrun,
  chunk, recv_loop, rpc_recv, parse_meta,
}
use libevrpc.Communication.RoundTrip.{frames_from, block}

send_blocks_failed :
    (sent : ℕ → Bool) (h : ℤ) (s : Bytes) (c : Bool) (n i k : ℕ)
    → ((j : ℕ) → i ≤ j → j < k → sent j ≡ true)
    → sent k ≡ false
    → i ≤ k
    → k < i + length (frames_from n i h s)
    → send_blocks sent n i h s c
      ≡ record { frames = take (k - i) (frames_from n i h s); closed = true; ret = negsuc 0 }
unfolding send_blocks frames_from
send_blocks_failed sent h s c zero i k before fails le lt = ground arith
send_blocks_failed sent h s c (suc n) i k before fails le lt = elim (Bool-cases (i == k)) [
  | inl here ↦
      let e : i ≡ k = ground arith in
      let z : k - i ≡ 0 = omega arith in let f : sent i ≡ false = rw e fails in rw (f, z)
  | inr later ↦
      let z : k - i ≡ suc (k - (i + 1)) = ground arith in
      let t : sent i ≡ true = before i (omega arith) (ground arith) in
      let ih =
        send_blocks_failed sent h s c n (i + 1) k (λ j a b. before j (omega arith) b) fails
          (ground arith) (ground arith) in
      rw (t, z) (ap (cons_frame (meta_data (pos i) (block s i))) ih)
]

-- When the k-th send() is the first that fails, RpcSend has sent the k frames before it, closes
-- the descriptor whatever `need_closed` says, and returns -1.
pub rpc_send_failed :
    (sent : ℕ → Bool) (id k : ℕ) (s : Bytes) (c : Bool)
    → ((j : ℕ) → j < k → sent j ≡ true)
    → sent k ≡ false
    → k < length (frames_from (full_blocks s) 0 (negate (wire_id (pos id))) s)
    → rpc_send sent (pos id) s c ≡ record {
      frames = take k (frames_from (full_blocks s) 0 (negate (wire_id (pos id))) s);
      closed = true;
      ret = negsuc 0;
    }
unfolding rpc_send
rpc_send_failed sent id k s c before fails lt =
    let z : k - 0 ≡ k = omega arith in
    send_blocks_failed sent (negate (wire_id (pos id))) s c (full_blocks s) 0 k
      (λ j _ b. before j b) fails (omega arith) (omega arith)
    ∙ ap
        (λ (m : ℕ).
          let r : Sent = record {
            frames = take m (frames_from (full_blocks s) 0 (negate (wire_id (pos id))) s);
            closed = true;
            ret = negsuc 0;
          } in
          r)
        z

send_blocks_closed :
    (sent : ℕ → Bool) (h : ℤ) (s : Bytes) (n i : ℕ) → (send_blocks sent n i h s true).closed ≡ true
unfolding send_blocks
send_blocks_closed sent h s zero i = ground arith
send_blocks_closed sent h s (suc n) i = ground (arith, send_blocks_closed sent h s n (i + 1))

-- RpcSend that is told to close the descriptor does so, whether it fails or not.
pub rpc_send_closes :
    (sent : ℕ → Bool) (id : ℕ) (s : Bytes) → (rpc_send sent (pos id) s true).closed ≡ true
unfolding rpc_send
rpc_send_closes sent id s = send_blocks_closed sent (negate (wire_id (pos id))) s (full_blocks s) 0

overrun_buf : (a b c d : ℕ) (body : Bytes) → NoNul body → parse_meta (a ∷ b ∷ c ∷ d ∷ body) ≡ none
unfolding parse_meta
overrun_buf a b c d body h = rw (cstr-none body h, parse_meta)

-- A peer that fills all 512 bytes of a body with bytes other than NUL makes RpcRecv read behind
-- its buffer.
pub rpc_recv_overrun :
    (a b c d : ℕ) (body info : Bytes) (rest : List RecvResult) (nc : Bool)
    → length body ≡ 512
    → NoNul body
    → rpc_recv (chunk (a ∷ b ∷ c ∷ d ∷ body) ∷ rest) info nc ≡ overrun
unfolding rpc_recv recv_loop
rpc_recv_overrun a b c d body info rest nc l h =
    let z : 512 - length body ≡ 0 = omega arith in
    let z' : 516 - suc (suc (suc (suc (length body)))) ≡ 0 = omega arith in
    rw (z', append-nil body, overrun_buf a b c d body h, recv_loop)
