-- ===== src/Util/Hash/Laws.antt =====
-- What the two hash functions of src/util/rpc_util.cpp compute.
use libevrpc.Base.{
  ℕ, suc, ◌+◌, ◌-◌, ◌*◌, ◌%◌, ◌^◌, ◌<◌, ◌≡◌, refl, some, [], ◌∷◌, bit_xor, length, arith,
}
use libevrpc.Base.Bytes.{Bytes, until_nul}
use libevrpc.Util.Hash.{
  u32, char_word, bkdr_seed, bkdr_loop, bkdr_hash, mur_m, word_le, mur_mix, mur_loop, mur_final,
  mur_mur_hash2,
}

-- The polynomial that BKDR evaluates, with no word size.
pub poly : ℕ → Bytes → ℕ
poly acc [] = acc
poly acc (c ∷ rest) = poly (acc * bkdr_seed + char_word c) rest

poly-mod : (a b : ℕ) (s : Bytes) → a % 2 ^ 32 ≡ b % 2 ^ 32 → poly a s % 2 ^ 32 ≡ poly b s % 2 ^ 32
unfolding poly
poly-mod a b [] h = h
poly-mod a b (c ∷ s) h =
    poly-mod (a * bkdr_seed + char_word c) (b * bkdr_seed + char_word c) s (omega arith)

bkdr_loop-poly : (acc : ℕ) (s : Bytes) → bkdr_loop acc s % 2 ^ 32 ≡ poly acc (until_nul s) % 2 ^ 32
unfolding bkdr_loop poly until_nul
bkdr_loop-poly acc [] = refl
bkdr_loop-poly acc (c ∷ s) = ground (
  arith,
  bkdr_loop-poly ((acc * bkdr_seed + char_word c) % u32) s,
  poly-mod ((acc * bkdr_seed + char_word c) % u32) (acc * bkdr_seed + char_word c) (until_nul s),
)

-- BKDRHash is the polynomial in 1313 over the characters before the first NUL, modulo 2 ^ 31.
pub bkdr_hash-poly : (s : Bytes) → bkdr_hash s ≡ poly 0 (until_nul s) % 2 ^ 31
unfolding bkdr_hash
bkdr_hash-poly s = omega (arith, bkdr_loop-poly 0 s)

-- BKDRHash fits an int32_t that is not negative.
pub bkdr_hash-lt : (s : Bytes) → bkdr_hash s < 2 ^ 31
unfolding bkdr_hash
bkdr_hash-lt s = omega arith

-- The reference: blocks of four bytes, then the last bytes.
pub mur_blocks : Bytes → ℕ → ℕ
mur_blocks (a ∷ b ∷ c ∷ d ∷ rest) h = mur_blocks rest (mur_mix h (word_le a b c d))
mur_blocks (a ∷ b ∷ c ∷ []) h =
    bit_xor (bit_xor (bit_xor h (c * 2 ^ 16)) (b * 2 ^ 8)) (a * 2 ^ 0) * mur_m % u32
mur_blocks (a ∷ b ∷ []) h = bit_xor (bit_xor h (b * 2 ^ 8)) (a * 2 ^ 0) * mur_m % u32
mur_blocks (a ∷ []) h = bit_xor h (a * 2 ^ 0) * mur_m % u32
mur_blocks [] h = h

mur_loop-blocks : (s : Bytes) (h : ℕ) → mur_loop (length s) s h ≡ some (mur_blocks s h)
unfolding mur_loop mur_blocks
mur_loop-blocks [] h = refl
mur_loop-blocks (a ∷ []) h = refl
mur_loop-blocks (a ∷ b ∷ []) h = refl
mur_loop-blocks (a ∷ b ∷ c ∷ []) h = refl
mur_loop-blocks (a ∷ b ∷ c ∷ d ∷ rest) h =
    let e : suc (suc (suc (suc (length rest)))) - 4 ≡ length rest = omega arith in
    ground (arith, e, mur_loop-blocks rest (mur_mix h (word_le a b c d)))

-- With the size of its text MurMurHash2 reads no byte behind it, and mixes its blocks in order.
pub mur_mur_hash2-blocks :
    (s : Bytes)
    → mur_mur_hash2 s (length s) ≡ some (mur_final (mur_blocks s (bit_xor 97 (length s))))
unfolding mur_mur_hash2
mur_mur_hash2-blocks s = rw (mur_loop-blocks s (bit_xor 97 (length s)))
