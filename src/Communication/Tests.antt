-- ===== src/Communication/Tests.antt =====
-- Runs of RpcSend and RpcRecv, src/util/rpc_communication.cpp, on small messages.
use libevrpc.Base.{Bool, not, ◌≡◌, refl, ◌↔◌, true, false, some, List, [], ◌∷◌, take, arith}
use libevrpc.Base.Int.{ℤ, is_neg, pos, negsuc, negate}
use libevrpc.Base.Bytes.{Bytes, NoNul}
use libevrpc.Communication.{
  full_blocks, wire_id, rpc_send, rpc_send_to, send_blocks, send_rest, meta_data, RecvResult,
  returned, waiting, again, chunk, closed_by_peer, rpc_recv, rpc_recv_from,
}
use libevrpc.Communication.RoundTrip.{done, wait, deliver, frames_from}
use libevrpc.Communication.Connect.{Attempt, refused, in_progress, ready, tcp_connect}
use libevrpc.Communication.Connect.Laws.{Connected, tcp_connect-Connected}
use libevrpc.Communication.Transfer.{
  carried, rpc_recv-rpc_send, rpc_recv_from-rpc_send_to, rpc_recv_unterminated,
}
use libevrpc.Communication.Faults.{rpc_send_failed}

abbrev hi : Bytes
hi = b'h' ∷ b'i' ∷ []

-- The frame of the message `hi` under the transfer id 7, behind an EAGAIN.
rpc_recv-rpc_send_example :
    (text : Bytes) × (rpc_recv (again ∷ chunk (meta_data (negsuc 6) hi) ∷ []) [] false
      ≡ returned (pos 7) text false)
    × ((text ≡ hi) ↔ NoNul hi)
unfolding rpc_send send_blocks send_rest
rpc_recv-rpc_send_example =
    rpc_recv-rpc_send (λ k. true) hi true false {rest = []}
      {results = again ∷ chunk (meta_data (negsuc 6) hi) ∷ []} (λ k. refl) (omega arith) 7
      (λ e. omega arith) (omega arith) (wait (deliver (meta_data (negsuc 6) hi) done))

rpc_recv_from-rpc_send_to_example :
    (text : Bytes) × (rpc_recv_from (chunk (meta_data (negsuc 0) hi) ∷ []) [] true
      ≡ returned (pos 1) text true)
    × ((text ≡ hi) ↔ NoNul hi)
unfolding rpc_send_to send_blocks send_rest
rpc_recv_from-rpc_send_to_example =
    rpc_recv_from-rpc_send_to (λ k. true) hi true true {rest = []}
      {results = chunk (meta_data (negsuc 0) hi) ∷ []} (λ k. refl) (omega arith) (λ e. omega arith)
      (deliver (meta_data (negsuc 0) hi) done)

-- The empty message leaves no frame.
rpc_recv_unterminated_example :
    ((rpc_send (λ k. true) (pos 7) [] false).ret ≡ pos 0)
    × (rpc_recv (closed_by_peer ∷ []) [] false ≡ rpc_recv (closed_by_peer ∷ []) (carried []) false)
    × (rpc_recv [] (carried []) false ≡ waiting (carried []))
    × ((more : List RecvResult)
        → rpc_recv (closed_by_peer ∷ more) (carried []) false ≡ returned (pos 0) (carried []) false)
unfolding rpc_send send_blocks send_rest
rpc_recv_unterminated_example =
    rpc_recv_unterminated (λ k. true) [] false false 7 {rest = closed_by_peer ∷ []}
      {results = closed_by_peer ∷ []} (λ k. refl) (omega arith) (omega arith) (omega arith) done

rpc_send_failed_example : rpc_send (λ k. false) (pos 7) hi false ≡ record {
  frames = take 0 (frames_from (full_blocks hi) 0 (negate (wire_id (pos 7))) hi);
  closed = true;
  ret = negsuc 0;
}
unfolding frames_from
rpc_send_failed_example =
    rpc_send_failed (λ k. false) 7 0 hi false (λ j h. absurd (omega arith)) refl (omega arith)

-- The first address refuses, the second connects.
abbrev two_attempts : List Attempt
two_attempts =
    record { socket = pos 4; nodelay_ok = true; connect = refused; select = ready }
    ∷ record { socket = pos 5; nodelay_ok = true; connect = in_progress; select = ready }
    ∷ []

tcp_connect-Connected_example :
    Connected
      (λ fd. not (is_neg fd))
      (pos 15)
      two_attempts
      (tcp_connect (λ fd. not (is_neg fd)) (pos 15) (some two_attempts)).0
tcp_connect-Connected_example =
    tcp_connect-Connected (λ fd. not (is_neg fd)) (pos 15) two_attempts refl

abbrev count_fails : ℤ → Bool × Bool × Bool × Bool
count_fails fd = (true, true, false, true)
