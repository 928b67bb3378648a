-- ===== src/Communication/Transfer.antt =====
-- Whole messages: RpcSend against RpcRecv, and the datagram pair, src/util/rpc_communication.cpp.
use libevrpc.Base.{
  ℕ, zero, suc, ◌+◌, ◌%◌, ◌^◌, ◌<◌, ◌≡◌, refl, ap, ◌∙◌, ◌≢◌, ◌↔◌, Bool, true, List, [], ◌∷◌, ◌++◌,
  length, arith, append_assoc, append-nil, ◌==◌,
}
use libevrpc.Base.Int.{ℤ, pos, negsuc, is_neg, negate, IsInt32}
use libevrpc.Base.Bytes.{Bytes, until_nul, NoNul}
use libevrpc.Communication.{
  full_blocks, wire_id, rpc_send, rpc_send_to, RecvResult, transfer_of, returned, waiting,
  closed_by_peer, recv_loop, rpc_recv, rpc_recv_from, send_blocks,
}
use libevrpc.Communication.RoundTrip.{
  text_from, frames_from, send_blocks-frames_from, Delivers, recv_loop-frames_from, recv_loop-done,
  recv_loop-deliver, recv_loop-meta_data, length-block-le, block,
}
use libevrpc.Communication.Blocks.{text_from-drop, NoNul-text_from}

-- The text that the frames of a message carry.
pub carried : Bytes → Bytes
carried s = text_from (full_blocks s) 0 s

pub carried_iff : (s : Bytes) → (carried s ≡ s) ↔ NoNul s
unfolding carried
carried_iff s = (
  λ e. NoNul-text_from (full_blocks s) 0 s (omega arith) (ap length e),
  λ h. text_from-drop (full_blocks s) 0 s (omega arith) h,
)

negate-wire_id :
    (id : ℕ)
    → id < 2 ^ 31
    → IsInt32 (negate (wire_id (pos id)))
      × (is_neg (negate (wire_id (pos id))) ≡ true)
      × (transfer_of (negate (wire_id (pos id))) ≡ wire_id (pos id))
negate-wire_id zero h = (omega arith, refl, ground arith)
negate-wire_id (suc n) h = (omega arith, refl, ground arith)

module _ (sent : ℕ → Bool) (s : Bytes) (c nc : Bool) {rest results : List RecvResult}
    (all_sent : (k : ℕ) → sent k ≡ true) (size : length s < 2 ^ 31) where
  recv_loop-send_blocks :
      (h : ℤ)
      → length s % 511 ≢ 0
      → IsInt32 h
      → is_neg h ≡ true
      → Delivers rest (send_blocks sent (full_blocks s) 0 h s c).frames results
      → recv_loop results [] nc ≡ returned (transfer_of h) (carried s) nc
  unfolding carried
  recv_loop-send_blocks h r range neg d =
      recv_loop-frames_from h s nc (full_blocks s) 0 [] results r range neg (omega arith)
        (rw (send_blocks-frames_from sent (full_blocks s) 0 h s c all_sent) at d)

  -- Under the premise that each recv() returns exactly one whole frame of RpcSend, in the order in
  -- which they were sent, or EAGAIN, which TCP does not guarantee: a message below 2^31 bytes whose
  -- size is no multiple of 511 and whose send() calls all work is received with its transfer id,
  -- which is below 2^31 (0 turned into 1), and the text is the one that was sent exactly when it
  -- has no NUL byte.
  pub rpc_recv-rpc_send :
      (id : ℕ)
      → length s % 511 ≢ 0
      → id < 2 ^ 31
      → Delivers rest (rpc_send sent (pos id) s c).frames results
      → (text : Bytes) × (rpc_recv results [] nc ≡ returned (wire_id (pos id)) text nc)
        × ((text ≡ s) ↔ NoNul s)
  unfolding rpc_send rpc_recv
  rpc_recv-rpc_send id r small d =
      let (range, neg, back) = negate-wire_id id small in
      (
        carried s,
        recv_loop-send_blocks (negate (wire_id (pos id))) r range neg d
            ∙ ap (λ t. returned t (carried s) nc) back,
        carried_iff s,
      )

  -- Under the premise that each recvfrom() returns the next datagram of RpcSendTo, or EAGAIN, so
  -- that none is lost, none overtakes another and no other sender comes between, which UDP does not
  -- guarantee: RpcRecvFrom receives a message below 2^31 bytes whose size is no multiple of 511 and
  -- whose sendto() calls all work with the transfer id 1, and the text is the one that was sent
  -- exactly when it has no NUL byte.
  pub rpc_recv_from-rpc_send_to :
      length s % 511 ≢ 0
      → Delivers rest (rpc_send_to sent s c).frames results
      → (text : Bytes) × (rpc_recv_from results [] nc ≡ returned (pos 1) text nc)
        × ((text ≡ s) ↔ NoNul s)
  unfolding rpc_send_to rpc_recv_from
  rpc_recv_from-rpc_send_to r d =
      (carried s, recv_loop-send_blocks (negsuc 0) r (omega arith) refl d, carried_iff s)

-- Full blocks alone carry no transfer id.
recv_loop_blocks :
    {rest : List RecvResult} (h : ℤ) (s : Bytes) (nc : Bool) (n i : ℕ) (info : Bytes)
    (results : List RecvResult)
    → length s % 511 ≡ 0
    → i + n < 2 ^ 31
    → Delivers rest (frames_from n i h s) results
    → recv_loop results info nc ≡ recv_loop rest (info ++ text_from n i s) nc
unfolding frames_from text_from
recv_loop_blocks h s nc zero i info results r small d =
    let eq : (length s % 511 == 0) ≡ true = ground arith in
    rw (eq, append-nil info) (recv_loop-done info nc (rw eq at d))
recv_loop_blocks {rest} h s nc (suc n) i info results r small d =
    let (later, d', e) = recv_loop-deliver info nc d in
    rw
      (e, recv_loop-meta_data (pos i) (block s i) info nc later (omega arith) (length-block-le s i))
      (recv_loop_blocks h s nc n (i + 1) (info ++ until_nul (block s i)) later r (omega arith) d'
        ∙ ap (λ t. recv_loop rest t nc)
            (append_assoc info (until_nul (block s i)) (text_from n (i + 1) s)))

-- Under the premise that each recv() returns exactly one whole frame of RpcSend, in the order in
-- which they were sent, or EAGAIN, which TCP does not guarantee: a message below 2^31 bytes whose
-- size is a multiple of 511, the empty one among them, and whose send() calls all work is reported
-- as sent but is not complete when all its frames are read. RpcRecv goes on to what the peer does
-- next: if that is nothing, it waits; if the peer closes, the transfer id is 0 whatever was sent.
pub rpc_recv_unterminated :
    (sent : ℕ → Bool) (s : Bytes) (c nc : Bool) (id : ℕ) {rest results : List RecvResult}
    → ((k : ℕ) → sent k ≡ true)
    → length s < 2 ^ 31
    → length s % 511 ≡ 0
    → id < 2 ^ 31
    → Delivers rest (rpc_send sent (pos id) s c).frames results
    → ((rpc_send sent (pos id) s c).ret ≡ pos 0)
      × (rpc_recv results [] nc ≡ rpc_recv rest (carried s) nc)
      × (rpc_recv [] (carried s) nc ≡ waiting (carried s))
      × ((more : List RecvResult)
          → rpc_recv (closed_by_peer ∷ more) (carried s) nc ≡ returned (pos 0) (carried s) nc)
unfolding rpc_send rpc_recv recv_loop carried
rpc_recv_unterminated sent s c nc id {rest} {results} all_sent size r small d =
    let e =
      send_blocks-frames_from sent (full_blocks s) 0 (negate (wire_id (pos id))) s c all_sent in
    let on =
      recv_loop_blocks (negate (wire_id (pos id))) s nc (full_blocks s) 0 [] results r (omega arith)
        (rw e at d) in
    (rw e, on, refl, λ more. refl)
