-- ===== src/Communication/Codec.antt =====
-- A frame as it is written and read: h_code and body survive, up to the body's first NUL.
use libevrpc.Base.{
  ℕ, suc, ◌-◌, ◌/◌, ◌%◌, ◌^◌, ◌≤◌, ◌<◌, ◌≡◌, some, ◌∷◌, length, replicate, arith, length-append,
  length-replicate, append-nil,
}
use libevrpc.Base.Int.{ℤ, IsInt32, word32, signed32, signed32-word32, word32-lt}
use libevrpc.Base.Bytes.{Bytes, cstr, until_nul, cstr-terminated}
use libevrpc.Communication.{meta_data, recv_buf, of_le, parse_meta}

of_le-le_bytes :
    (w : ℕ)
    → w < 2 ^ 32
    → of_le (w % 256) (w / 256 % 256) (w / 65536 % 256) (w / 16777216 % 256) ≡ w
of_le-le_bytes w h = omega arith

pub length-meta_data :
    (h : ℤ) (block : Bytes) → length block ≤ 511 → length (meta_data h block) ≡ 516
unfolding meta_data
length-meta_data h block l = omega (
  arith,
  length-append {0} block (replicate (512 - length block) 0),
  length-replicate {0} (512 - length block) (let z : ℕ = 0 in z),
)

-- A whole frame fills the receive buffer.
pub recv_buf-meta_data :
    (h : ℤ) (block : Bytes) → length block ≤ 511 → recv_buf (meta_data h block) ≡ meta_data h block
recv_buf-meta_data h block l = rw (length-meta_data h block l) (append-nil (meta_data h block))

parse_meta-some :
    (a b c d : ℕ) (body text : Bytes)
    → cstr body ≡ some text
    → parse_meta (a ∷ b ∷ c ∷ d ∷ body) ≡ some (signed32 (of_le a b c d), text)
unfolding parse_meta
parse_meta-some a b c d body text e = rw (e, parse_meta)

-- Reading back a frame that carries a block of at most 511 bytes gives the number in its head and
-- the block up to its first NUL.
pub parse_meta-meta_data :
    (h : ℤ) (block : Bytes)
    → IsInt32 h
    → length block ≤ 511
    → parse_meta (meta_data h block) ≡ some (h, until_nul block)
unfolding meta_data
parse_meta-meta_data h block i l =
    let e : 512 - length block ≡ suc (511 - length block) = omega arith in
    rw (
      e,
      parse_meta-some _ _ _ _ _ _ (cstr-terminated block (replicate (511 - length block) 0)),
      of_le-le_bytes (word32 h) (word32-lt h),
      signed32-word32 h i,
    )
