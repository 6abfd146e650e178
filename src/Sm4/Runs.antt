-- ===== src/Sm4/Runs.antt =====
-- Runs of src/dlms/security/sm4.cpp on concrete bytes.
use dlms_cosem_cpp.Base.{ℕ, ◌≡◌, refl, none, some, arith, List, [], ◌∷◌, replicate, All}
use dlms_cosem_cpp.Base.Bits.{IsByte}
use dlms_cosem_cpp.Core.{ok}
use dlms_cosem_cpp.Sm4.Block.{key_expansion, encrypt_block, decrypt_block}
use dlms_cosem_cpp.Sm4.Inverse.{decrypt_block-encrypt_block}
use dlms_cosem_cpp.Sm4.Gcm.{
  gcm_encrypt, gcm_decrypt, gmac, tag_aad, new_counter, compute_tag, ◌>>=◌,
}
use dlms_cosem_cpp.Sm4.Gcm.Laws.{gcm_decrypt-gcm_encrypt, gmac-key_free}

-- The key and the block of the first example of the standard.
abbrev key : List ℕ
key =
    0x01
    ∷ (0x23
        ∷ (0x45
            ∷ (0x67
                ∷ (0x89
                    ∷ (0xAB
                        ∷ (0xCD
                            ∷ (0xEF
                                ∷ (0xFE
                                    ∷ (0xDC
                                        ∷ (0xBA
                                            ∷ (0x98
                                                ∷ (0x76 ∷ (0x54 ∷ (0x32 ∷ (0x10 ∷ [])))))))))))))))

key-bytes : All IsByte key
key-bytes = ground arith

decrypt_block-encrypt_block_example :
    decrypt_block (key_expansion key) (encrypt_block (key_expansion key) key) ≡ key
decrypt_block-encrypt_block_example =
    decrypt_block-encrypt_block (key_expansion key) key (omega arith) key-bytes

abbrev nonce : List ℕ
nonce = replicate 12 7

gcm_decrypt-gcm_encrypt_example :
    (gcm_encrypt (key_expansion key) nonce (1 ∷ []) key 12 >>= λ c.
    gcm_decrypt (key_expansion key) nonce (1 ∷ []) c 12)
    ≡ some (ok key)
gcm_decrypt-gcm_encrypt_example =
    gcm_decrypt-gcm_encrypt (key_expansion key) nonce (1 ∷ []) key 12 (omega arith) (omega arith)

gmac-key_free_example :
    (gmac (key_expansion key) nonce (5 ∷ (6 ∷ [])) 12
      ≡ gmac (key_expansion nonce) key (5 ∷ (6 ∷ [])) 12)
    × (gmac (key_expansion key) nonce (5 ∷ (6 ∷ [])) 12
        ≡ some (tag_aad (5 ∷ (6 ∷ [])) (replicate 12 0)))
gmac-key_free_example =
    gmac-key_free (key_expansion key) (key_expansion nonce) nonce key (5 ∷ (6 ∷ [])) 12
      (omega arith) (omega arith) (omega arith)

-- A nonce of seventeen bytes does not fit the counter, and a tag of no bytes has no remainders.
long_nonce : (rk aad text : List ℕ) → gcm_encrypt rk (replicate 17 0) aad text 12 ≡ none
unfolding gcm_encrypt new_counter
long_nonce rk aad text = refl

no_tag : (rk : List ℕ) → gcm_encrypt rk nonce [] (1 ∷ []) 0 ≡ none
unfolding gcm_encrypt new_counter compute_tag
no_tag rk = refl
