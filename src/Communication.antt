-- ===== src/Communication.antt =====
-- src/util/rpc_communication.cpp: the frames on the wire, RpcSend, RpcRecv and their datagram
-- twins. What send() and recv() do is an argument, the bytes that are sent and whether the
-- descriptor is closed are results.
pub mod Codec
pub mod RoundTrip
pub mod Blocks
pub mod Transfer
pub mod Faults
pub mod Connect
mod Tests
use libevrpc.Base.{
  ℕ, zero, suc, ◌+◌, ◌-◌, ◌*◌, ◌/◌, ◌%◌, ◌^◌, Bool, true, false, Option, none, some, List, [], ◌∷◌,
  ◌++◌, ltb, leb, ◌==◌, if◌then◌else◌, length, take, drop, replicate,
}
use libevrpc.Base.Int.{ℤ, pos, negsuc, is_neg, negate, word32, signed32}
use libevrpc.Base.Bytes.{Bytes, cstr}

abbrev pub body_size : ℕ
body_size = 512

-- sizeof(MetaData): an int32_t and the body.
abbrev pub meta_size : ℕ
meta_size = 516

abbrev pub error_recv : ℤ
error_recv = negsuc 199

-- The four bytes of an int32_t, the lowest first.
abbrev pub le_bytes : ℕ → Bytes
le_bytes w = w % 256 ∷ w / 256 % 256 ∷ w / 65536 % 256 ∷ w / 16777216 % 256 ∷ []

-- MetaData after memset, the copy of a block into its body and the NUL behind the block.
unfoldable pub meta_data : ℤ → Bytes → Bytes
meta_data h_code block = le_bytes (word32 h_code) ++ block ++ replicate (512 - length block) 0

-- What a run of RpcSend leaves behind.
pub record Sent : Type 0 where
  pub frames : List Bytes
  pub closed : Bool
  pub ret : ℤ

abbrev pub send_failed : Sent
send_failed = record { frames = []; closed = true; ret = negsuc 0 }

abbrev pub cons_frame : Bytes → Sent → Sent
cons_frame frame s = record s { frames = frame ∷ s.frames }

-- The block behind the loop, and the end of the call. `sent i` tells whether the i-th send() works.
unfoldable pub send_rest : (ℕ → Bool) → ℕ → ℤ → Bytes → Bool → Sent
send_rest sent i h_code send_info need_closed =
    let rest_len = length send_info % (body_size - 1) in
    let block_num = length send_info / (body_size - 1) + 1 in
    let done : Sent = record { frames = []; closed = need_closed; ret = pos 0 } in
    if rest_len == 0
    then done
    else if sent i
    then cons_frame
        (meta_data h_code (take rest_len (drop ((block_num - 1) * (body_size - 1)) send_info))) done
    else send_failed

-- `for (int i = 0; i < block_num - 1; ++i)`: n rounds are left.
unfoldable pub send_blocks : (ℕ → Bool) → ℕ → ℕ → ℤ → Bytes → Bool → Sent
unfolding send_rest
send_blocks sent zero i h_code send_info need_closed = send_rest sent i h_code send_info need_closed
send_blocks sent (suc n) i h_code send_info need_closed =
    let frame = meta_data (pos i) (take (body_size - 1) (drop (i * (body_size - 1)) send_info)) in
    let next = send_blocks sent n (i + 1) h_code send_info need_closed in
    if sent i then cons_frame frame next else send_failed

-- block_num - 1. Sizes from 2^31 on, where block_num and i * (BODY_SIZE - 1) overflow an int, are
-- left out.
abbrev pub full_blocks : Bytes → ℕ
full_blocks send_info = length send_info / (body_size - 1) + 1 - 1

-- A transfer id of 0 goes out as 1.
abbrev pub wire_id : ℤ → ℤ
wire_id (pos zero) = pos 1
wire_id (pos (suc n)) = pos (suc n)
wire_id (negsuc n) = negsuc n

unfoldable pub rpc_send : (ℕ → Bool) → ℤ → Bytes → Bool → Sent
unfolding send_blocks
rpc_send sent transfer_id send_info need_closed =
    if is_neg transfer_id
    then record { frames = []; closed = false; ret = negsuc 0 }
    else send_blocks sent (full_blocks send_info) 0 (negate (wire_id transfer_id)) send_info
        need_closed

unfoldable pub rpc_send_to : (ℕ → Bool) → Bytes → Bool → Sent
unfolding send_blocks
rpc_send_to sent send_info need_closed =
    send_blocks sent (full_blocks send_info) 0 (negsuc 0) send_info need_closed

-- What one recv() call does: EAGAIN, another error, 0 bytes, or some bytes.
pub data RecvResult : Type 0 where
  again failed closed_by_peer : RecvResult
  chunk : Bytes → RecvResult

-- A run of RpcRecv returns, waits for a peer that sends no more, or reads behind its buffer.
pub data RecvRun : Type 0 where
  returned : ℤ → Bytes → Bool → RecvRun
  waiting : Bytes → RecvRun
  overrun : RecvRun

-- recv_buf after memset and recv().
abbrev pub recv_buf : Bytes → Bytes
recv_buf got = got ++ replicate (516 - length got) 0

abbrev pub of_le : ℕ → ℕ → ℕ → ℕ → ℕ
of_le a b c d = a + b * 256 + c * 65536 + d * 16777216

-- `(MetaData*)recv_buf`: h_code, and the body up to its NUL. `none` if strlen leaves the buffer.
unfoldable pub parse_meta : Bytes → Option (ℤ × Bytes)
parse_meta (a ∷ b ∷ c ∷ d ∷ body) = elim (cstr body) [
  | none ↦ none
  | some text ↦ some (signed32 (of_le a b c d), text)
]
parse_meta _ = none

-- `md_ptr->h_code * -1` in an int32_t, which wraps at its least number.
abbrev pub transfer_of : ℤ → ℤ
transfer_of h_code = signed32 (word32 (negate h_code))

-- The loop over the results of recv(), with the text received so far.
unfoldable pub recv_loop : List RecvResult → Bytes → Bool → RecvRun
recv_loop [] info need_closed = waiting info
recv_loop (again ∷ rest) info need_closed = recv_loop rest info need_closed
recv_loop (failed ∷ rest) info need_closed = returned error_recv info need_closed
recv_loop (closed_by_peer ∷ rest) info need_closed = returned (pos 0) info need_closed
recv_loop (chunk got ∷ rest) info need_closed = elim (parse_meta (recv_buf got)) [
  | none ↦ overrun
  | some (h_code, text) ↦
      let next = recv_loop rest (info ++ text) need_closed in
      if is_neg h_code then returned (transfer_of h_code) (info ++ text) need_closed else next
]

unfoldable pub rpc_recv : List RecvResult → Bytes → Bool → RecvRun
unfolding recv_loop
rpc_recv results recv_info need_closed = recv_loop results recv_info need_closed

unfoldable pub rpc_recv_from : List RecvResult → Bytes → Bool → RecvRun
unfolding recv_loop
rpc_recv_from results recv_info need_closed = recv_loop results recv_info need_closed
