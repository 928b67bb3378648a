-- ===== src/Communication/RoundTrip.antt =====
-- RpcRecv against RpcSend.
use libevrpc.Base.{
  ℕ, zero, suc, ◌+◌, ◌-◌, ◌*◌, ◌/◌, ◌%◌, ◌^◌, ◌≤◌, ◌<◌, ◌≡◌, refl, ap, ◌∙◌, ◌≢◌, Bool, true, false,
  List, [], ◌∷◌, ◌++◌, length, take, drop, arith, length-take, append_assoc, ◌==◌, if◌then◌else◌,
}
use libevrpc.Base.Int.{ℤ, pos, is_neg, IsInt32}
use libevrpc.Base.Bytes.{Bytes, until_nul}
use libevrpc.Communication.{
  meta_data, cons_frame, send_blocks, RecvResult, transfer_of, again, chunk, returned, recv_loop,
}
use libevrpc.Communication.Codec.{recv_buf-meta_data, parse_meta-meta_data}

abbrev pub block : Bytes → ℕ → Bytes
block s i = take 511 (drop (i * 511) s)

abbrev pub last_block : Bytes → Bytes
last_block s = take (length s % 511) (drop (length s / 511 * 511) s)

-- The frames of a send that meets no error: n full blocks from the i-th on, then the rest.
unfoldable pub frames_from : ℕ → ℕ → ℤ → Bytes → List Bytes
frames_from zero i h s = if length s % 511 == 0 then [] else meta_data h (last_block s) ∷ []
frames_from (suc n) i h s = meta_data (pos i) (block s i) ∷ frames_from n (i + 1) h s

-- The text that a receiver takes out of those frames.
unfoldable pub text_from : ℕ → ℕ → Bytes → Bytes
text_from zero i s = if length s % 511 == 0 then [] else until_nul (last_block s)
text_from (suc n) i s = until_nul (block s i) ++ text_from n (i + 1) s

pub send_blocks-frames_from :
    (sent : ℕ → Bool) (n i : ℕ) (h : ℤ) (s : Bytes) (c : Bool)
    → ((k : ℕ) → sent k ≡ true)
    → send_blocks sent n i h s c ≡ record { frames = frames_from n i h s; closed = c; ret = pos 0 }
unfolding send_blocks frames_from
send_blocks-frames_from sent zero i h s c all =
    let e : length s / 511 + 1 - 1 ≡ length s / 511 = omega arith in rw (all i, e) (ground arith)
send_blocks-frames_from sent (suc n) i h s c all = rw (all i) (
    ap (cons_frame (meta_data (pos i) (block s i)))
      (send_blocks-frames_from sent n (i + 1) h s c all))

-- The results of recv() deliver frames, each whole and in order, with any number of EAGAIN between.
pub data Delivers (rest : List RecvResult) : List Bytes → List RecvResult → Type 0 where
  done : Delivers rest [] rest
  wait :
      {frames : List Bytes} {results : List RecvResult}
      → Delivers rest frames results
      → Delivers rest frames (again ∷ results)
  deliver :
      {frames : List Bytes} {results : List RecvResult} (frame : Bytes)
      → Delivers rest frames results
      → Delivers rest (frame ∷ frames) (chunk frame ∷ results)

pub recv_loop-done :
    {rest results : List RecvResult} (info : Bytes) (nc : Bool)
    → Delivers rest [] results
    → recv_loop results info nc ≡ recv_loop rest info nc
unfolding recv_loop
recv_loop-done info nc done = refl
recv_loop-done info nc (wait d) = recv_loop-done info nc d

pub recv_loop-deliver :
    {rest results : List RecvResult} {frame : Bytes} {frames : List Bytes} (info : Bytes)
    (nc : Bool)
    → Delivers rest (frame ∷ frames) results
    → (later : List RecvResult) × Delivers rest frames later
      × (recv_loop results info nc ≡ recv_loop (chunk frame ∷ later) info nc)
unfolding recv_loop
recv_loop-deliver info nc (wait d) = recv_loop-deliver info nc d
recv_loop-deliver info nc (deliver {results} frame d) = (results, d, refl)

-- One whole frame in the loop.
pub recv_loop-meta_data :
    (h : ℤ) (b info : Bytes) (nc : Bool) (later : List RecvResult)
    → IsInt32 h
    → length b ≤ 511
    → recv_loop (chunk (meta_data h b) ∷ later) info nc ≡ (
        if is_neg h
        then returned (transfer_of h) (info ++ until_nul b) nc
        else recv_loop later (info ++ until_nul b) nc)
unfolding recv_loop
recv_loop-meta_data h b info nc later i l =
    rw (recv_buf-meta_data h b l, parse_meta-meta_data h b i l, recv_loop)

pub length-block-le : (s : Bytes) (i : ℕ) → length (block s i) ≤ 511
length-block-le s i = omega (arith, length-take {0} 511 (drop (i * 511) s))

pub length-last_block-le : (s : Bytes) → length (last_block s) ≤ 511
length-last_block-le s =
    omega (arith, length-take {0} (length s % 511) (drop (length s / 511 * 511) s))

pub recv_loop-frames_from :
    {rest : List RecvResult} (h : ℤ) (s : Bytes) (nc : Bool) (n i : ℕ) (info : Bytes)
    (results : List RecvResult)
    → length s % 511 ≢ 0
    → IsInt32 h
    → is_neg h ≡ true
    → i + n < 2 ^ 31
    → Delivers rest (frames_from n i h s) results
    → recv_loop results info nc ≡ returned (transfer_of h) (info ++ text_from n i s) nc
unfolding frames_from text_from
recv_loop-frames_from h s nc zero i info results r range neg small d =
    let ne : (length s % 511 == 0) ≡ false = ground arith in
    let d' = rw ne at d in
    let (later, d'', e) = recv_loop-deliver info nc d' in
    rw (
      e,
      recv_loop-meta_data h (last_block s) info nc later range (length-last_block-le s),
      neg,
      ne,
    )
recv_loop-frames_from h s nc (suc n) i info results r range neg small d =
    let (later, d', e) = recv_loop-deliver info nc d in
    rw
      (e, recv_loop-meta_data (pos i) (block s i) info nc later (omega arith) (length-block-le s i))
      (recv_loop-frames_from h s nc n (i + 1) (info ++ until_nul (block s i)) later r range neg
          (omega arith) d'
        ∙ ap (λ t. returned (transfer_of h) t nc)
            (append_assoc info (until_nul (block s i)) (text_from n (i + 1) s)))
