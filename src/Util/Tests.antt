-- ===== src/Util/Tests.antt =====
-- The hash functions and the thread wrapper of src/util on concrete values.
use libevrpc.Base.{◌%◌, ◌^◌, ◌≡◌, some, [], ◌∷◌, bit_xor}
use libevrpc.Base.Bytes.{until_nul}
use libevrpc.Util.Hash.{bkdr_hash, mur_mur_hash2, mur_final}
use libevrpc.Util.Hash.Laws.{poly, mur_blocks, bkdr_hash-poly, mur_mur_hash2-blocks}

bkdr_hash-poly_example :
    bkdr_hash (b'a' ∷ b'b' ∷ 0 ∷ b'c' ∷ [])
    ≡ poly 0 (until_nul (b'a' ∷ b'b' ∷ 0 ∷ b'c' ∷ [])) % 2 ^ 31
bkdr_hash-poly_example = bkdr_hash-poly (b'a' ∷ b'b' ∷ 0 ∷ b'c' ∷ [])

mur_mur_hash2-blocks_example :
    mur_mur_hash2 (b'a' ∷ b'b' ∷ b'c' ∷ b'd' ∷ b'e' ∷ []) 5
    ≡ some (mur_final (mur_blocks (b'a' ∷ b'b' ∷ b'c' ∷ b'd' ∷ b'e' ∷ []) (bit_xor 97 5)))
mur_mur_hash2-blocks_example = mur_mur_hash2-blocks (b'a' ∷ b'b' ∷ b'c' ∷ b'd' ∷ b'e' ∷ [])
