-- ===== src/Sm4/Rounds.antt =====
-- The block cipher of src/dlms/security/sm4.cpp: decrypting undoes encrypting under any round keys.
use dlms_cosem_cpp.Base.{
  ℕ, zero, suc, ◌+◌, ◌-◌, ◌≤◌, ◌≡◌, refl, sym, ap, ap₂, ◌∙◌, arith, List, get_or, bit_xor,
}
use dlms_cosem_cpp.Base.Bits.{bit_xor_comm, bit_xor_assoc, bit_xor_cancel}
use dlms_cosem_cpp.Sm4.Block.{Words, feistel, round, encrypt_rounds, decrypt_rounds}

-- The four words in the opposite order, as `write_block` puts them.
abbrev pub reversed : Words → Words
reversed x = record { x0 = x.x3; x1 = x.x2; x2 = x.x1; x3 = x.x0 }

three_reversed : (a b c : ℕ) → bit_xor (bit_xor c b) a ≡ bit_xor (bit_xor a b) c
three_reversed a b c =
    bit_xor_comm (bit_xor c b) a ∙ ap (bit_xor a) (bit_xor_comm c b) ∙ sym (bit_xor_assoc a b c)

-- The same round, on the words in the opposite order, is undone.
round-reversed : (rk : ℕ) (x : Words) → round rk (reversed (round rk x)) ≡ reversed x
unfolding round
round-reversed rk x = rw (
  three_reversed x.x1 x.x2 x.x3,
  bit_xor_cancel x.x0 (feistel (bit_xor (bit_xor (bit_xor x.x1 x.x2) x.x3) rk)),
)

-- The last round of decryption, split off.
decrypt_rounds-last :
    (rk : List ℕ) (n at : ℕ) (x : Words)
    → decrypt_rounds rk (suc n) at x
      ≡ round (get_or rk (31 - (at + n)) 0) (decrypt_rounds rk n at x)
unfolding decrypt_rounds
decrypt_rounds-last rk zero at x = ap (λ (k : ℕ). round (get_or rk (31 - k) 0) x) (omega arith)
decrypt_rounds-last rk (suc n) at x =
    decrypt_rounds-last rk n (at + 1) (round (get_or rk (31 - at) 0) x)
    ∙ ap (λ (k : ℕ). round (get_or rk (31 - k) 0) (decrypt_rounds rk (suc n) at x)) (omega arith)

-- `n` rounds of decryption undo the rounds `at` to `at + n` of encryption.
pub decrypt_rounds-encrypt_rounds :
    (rk : List ℕ) (n at : ℕ) (x : Words)
    → at + n ≤ 32
    → decrypt_rounds rk n (32 - (at + n)) (reversed (encrypt_rounds rk n at x)) ≡ reversed x
unfolding encrypt_rounds decrypt_rounds
decrypt_rounds-encrypt_rounds rk zero at x h = refl
decrypt_rounds-encrypt_rounds rk (suc n) at x h =
    let key = get_or rk at 0 in
    let y = encrypt_rounds rk n (at + 1) (round key x) in
    let start : 32 - (at + suc n) ≡ 32 - (at + 1 + n) = omega arith in
    let last : 31 - (32 - (at + suc n) + n) ≡ at = omega arith in
    decrypt_rounds-last rk n (32 - (at + suc n)) (reversed y)
    ∙ ap₂ (λ (k d : ℕ). round (get_or rk k 0) (decrypt_rounds rk n d (reversed y))) last start
    ∙ ap (round key) (decrypt_rounds-encrypt_rounds rk n (at + 1) (round key x) (omega arith))
    ∙ round-reversed key x
