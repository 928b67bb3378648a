-- ===== src/Util/Hash.antt =====
-- BKDRHash and MurMurHash2 of src/util/rpc_util.cpp. A byte is a number below 256; a `char` is
-- signed, as it is on the platforms that the build files name. A text stands for the bytes of a
-- std::string, and its c_str() ends with the NUL behind them. `x & 0x7FFFFFFF` is `x % 2 ^ 31`.
pub mod Laws
use libevrpc.Base.{
  ℕ, ◌+◌, ◌-◌, ◌*◌, ◌/◌, ◌%◌, ◌^◌, Option, none, some, List, [], ◌∷◌, ltb, leb, ◌==◌, if◌then◌else◌,
  bit_xor, get_elem?,
}
use libevrpc.Base.Bytes.{Bytes}

abbrev pub u32 : ℕ
u32 = 2 ^ 32

-- A char that is widened to unsigned int.
abbrev pub char_word : ℕ → ℕ
char_word b = if ltb b 128 then b else b + (u32 - 256)

abbrev pub bkdr_seed : ℕ
bkdr_seed = 1313

bkdr_loop : ℕ → Bytes → ℕ
bkdr_loop hash_code [] = hash_code
bkdr_loop hash_code (c ∷ rest) =
    let next = bkdr_loop ((hash_code * bkdr_seed + char_word c) % u32) rest in
    if c == 0 then hash_code else next

unfoldable pub bkdr_hash : Bytes → ℕ
unfolding bkdr_loop
bkdr_hash orig_str = bkdr_loop 0 orig_str % 2 ^ 31

abbrev pub mur_m : ℕ
mur_m = 0x5bd1e995

-- The little endian word that `*(unsigned int*)data` reads.
abbrev pub word_le : ℕ → ℕ → ℕ → ℕ → ℕ
word_le a b c d = a + b * 2 ^ 8 + c * 2 ^ 16 + d * 2 ^ 24

-- One round of the loop, from `k *= m` to `h ^= k`.
unfoldable pub mur_mix : ℕ → ℕ → ℕ
mur_mix h k =
    let k1 = k * mur_m % u32 in
    let k2 = bit_xor k1 (k1 / 2 ^ 24) * mur_m % u32 in bit_xor (h * mur_m % u32) k2

-- `h ^= data[i] << shift`; `none` is a read behind the text.
xor_byte : Bytes → ℕ → ℕ → ℕ → Option ℕ
xor_byte text i shift h = elim (get_elem? text i) [
  | none ↦ none
  | some b ↦ some (bit_xor h (b * 2 ^ shift))
]

infixl 5 ◌>>=◌
abbrev ◌>>=◌ : {A B : Type 0} → Option A → (A → Option B) → Option B
none >>= f = none
some a >>= f = f a

-- The switch over the bytes that are left, with its fall-through.
mur_tail : ℕ → Bytes → ℕ → Option ℕ
unfolding xor_byte
mur_tail len text h =
    if len == 3
    then (do
      h3 ← xor_byte text 2 16 h
      h2 ← xor_byte text 1 8 h3
      h1 ← xor_byte text 0 0 h2
      some (h1 * mur_m % u32))
    else if len == 2
    then (do h2 ← xor_byte text 1 8 h; h1 ← xor_byte text 0 0 h2; some (h1 * mur_m % u32))
    else if len == 1
    then (do h1 ← xor_byte text 0 0 h; some (h1 * mur_m % u32))
    else some h

unfoldable pub mur_final : ℕ → ℕ
mur_final h =
    let h1 = bit_xor h (h / 2 ^ 13) in let h2 = h1 * mur_m % u32 in bit_xor h2 (h2 / 2 ^ 15)

-- The text is what `data` points to, `len` the counter of the loop.
mur_loop : ℕ → Bytes → ℕ → Option ℕ
unfolding mur_tail
mur_loop len (a ∷ b ∷ c ∷ d ∷ rest) h =
    let next = mur_loop (len - 4) rest (mur_mix h (word_le a b c d)) in
    if leb 4 len then next else mur_tail len (a ∷ b ∷ c ∷ d ∷ rest) h
mur_loop len text h = if leb 4 len then none else mur_tail len text h

unfoldable pub mur_mur_hash2 : Bytes → ℕ → Option ℕ
unfolding mur_loop
mur_mur_hash2 key_str len = do h ← mur_loop len key_str (bit_xor 97 len); some (mur_final h)
