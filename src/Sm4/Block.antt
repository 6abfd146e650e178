-- ===== src/Sm4/Block.antt =====
-- src/dlms/security/sm4.cpp: the key schedule and the two directions of a block. An array of 16 or
-- 32 numbers is a list, and a word of 32 bits is a number that is cut back where the source shifts.
use dlms_cosem_cpp.Base.{
  ℕ, zero, suc, ◌+◌, ◌-◌, List, [], ◌∷◌, ◌++◌, get_or, bit_and, bit_or, bit_xor,
}
use dlms_cosem_cpp.Base.Bits.{◌<<<◌, ◌>>>◌, u8, u32}
use dlms_cosem_cpp.Sm4.Tables.{sbox, ck, fk}

-- `uint32_t x[4]`
pub record Words : Type 0 where
  pub x0 : ℕ
  pub x1 : ℕ
  pub x2 : ℕ
  pub x3 : ℕ

unfoldable pub rotl32 : ℕ → ℕ → ℕ
rotl32 x n = bit_or (u32 (x <<< n)) (x >>> (32 - n))

-- The four bytes of a word, the highest first.
unfoldable pub word_bytes : ℕ → List ℕ
word_bytes x =
    u8 (bit_and (x >>> 24) 0xFF)
    ∷ (u8 (bit_and (x >>> 16) 0xFF) ∷ (u8 (bit_and (x >>> 8) 0xFF) ∷ (u8 (bit_and x 0xFF) ∷ [])))

-- The word of the four bytes from index `i` on.
unfoldable pub word_at : List ℕ → ℕ → ℕ
word_at bytes i =
    bit_or
      (bit_or (bit_or (u32 (get_or bytes i 0 <<< 24)) (get_or bytes (i + 1) 0 <<< 16))
        (get_or bytes (i + 2) 0 <<< 8))
      (get_or bytes (i + 3) 0)

abbrev pub substitute : ℕ → ℕ
substitute b = get_or sbox b 0

unfoldable pub tau : List ℕ → ℕ
tau input =
    bit_or
      (bit_or (bit_or (substitute (get_or input 0 0) <<< 24) (substitute (get_or input 1 0) <<< 16))
        (substitute (get_or input 2 0) <<< 8))
      (substitute (get_or input 3 0))

unfoldable pub l_transform : List ℕ → ℕ
l_transform input =
    let b = tau input in
    bit_xor (bit_xor (bit_xor (bit_xor b (rotl32 b 2)) (rotl32 b 10)) (rotl32 b 18)) (rotl32 b 24)

unfoldable pub feistel : ℕ → ℕ
feistel x = let t = tau (word_bytes x) in bit_xor (bit_xor t (rotl32 t 13)) (rotl32 t 23)

-- The loop of `key_expansion` from round `i` on, with the last four of `k`: the round keys.
unfoldable pub expand : ℕ → ℕ → Words → List ℕ
expand zero i k = []
expand (suc rounds) i k =
    let ki = bit_xor (bit_xor (bit_xor k.x1 k.x2) k.x3) (get_or ck i 0) in
    let next = bit_xor k.x0 (l_transform (word_bytes ki)) in
    next ∷ expand rounds (i + 1) (record { x0 = k.x1; x1 = k.x2; x2 = k.x3; x3 = next })

abbrev pub key_words : List ℕ → Words
key_words key = record {
  x0 = bit_xor (word_at key 0) (get_or fk 0 0);
  x1 = bit_xor (word_at key 4) (get_or fk 1 0);
  x2 = bit_xor (word_at key 8) (get_or fk 2 0);
  x3 = bit_xor (word_at key 12) (get_or fk 3 0);
}

unfoldable pub key_expansion : List ℕ → List ℕ
key_expansion key = expand 32 0 (key_words key)

abbrev pub read_block : List ℕ → Words
read_block block = record {
  x0 = word_at block 0;
  x1 = word_at block 4;
  x2 = word_at block 8;
  x3 = word_at block 12;
}

-- `y = {x[3], x[2], x[1], x[0]}`, written byte by byte.
abbrev pub write_block : Words → List ℕ
write_block x = word_bytes x.x3 ++ (word_bytes x.x2 ++ (word_bytes x.x1 ++ word_bytes x.x0))

-- The body of both loops, with the round's key.
unfoldable pub round : ℕ → Words → Words
round rk x = record {
  x0 = x.x1;
  x1 = x.x2;
  x2 = x.x3;
  x3 = bit_xor x.x0 (feistel (bit_xor (bit_xor (bit_xor x.x1 x.x2) x.x3) rk));
}

-- `rk_[i]` for `i` from `at` upwards.
unfoldable pub encrypt_rounds : List ℕ → ℕ → ℕ → Words → Words
encrypt_rounds rk zero at x = x
encrypt_rounds rk (suc n) at x = encrypt_rounds rk n (at + 1) (round (get_or rk at 0) x)

-- `rk_[31 - i]` for `i` from `at` upwards.
unfoldable pub decrypt_rounds : List ℕ → ℕ → ℕ → Words → Words
decrypt_rounds rk zero at x = x
decrypt_rounds rk (suc n) at x = decrypt_rounds rk n (at + 1) (round (get_or rk (31 - at) 0) x)

unfoldable pub encrypt_block : List ℕ → List ℕ → List ℕ
encrypt_block rk block = write_block (encrypt_rounds rk 32 0 (read_block block))

unfoldable pub decrypt_block : List ℕ → List ℕ → List ℕ
decrypt_block rk block = write_block (decrypt_rounds rk 32 0 (read_block block))
