-- ===== src/Sm4/Gcm.antt =====
-- src/dlms/security/sm4.cpp: `gcm_encrypt`, `gcm_decrypt` and `gmac`. The round keys stand for the
-- object, and `tag_len` is not negative. `none` is undefined behaviour: a nonce that is longer than
-- the counter, and a remainder by a tag length of zero.
pub mod Laws
use dlms_cosem_cpp.Base.{
  ℕ, zero, suc, ◌+◌, ◌-◌, ◌%◌, Bool, true, false, List, [], ◌∷◌, ◌++◌, length, get_or, take, drop,
  replicate, set, ltb, ◌==◌, if◌then◌else◌, ◌&&◌, bit_xor, Option, none, some,
}
use dlms_cosem_cpp.Base.Bits.{u8}
use dlms_cosem_cpp.Core.{Result, ok, err, decryption_error}
use dlms_cosem_cpp.Sm4.Block.{encrypt_block}

infixl 5 ◌>>=◌
abbrev pub ◌>>=◌ : {A B : Type 0} → Option A → (A → Option B) → Option B
none >>= f = none
some a >>= f = f a

-- `uint8_t counter[16] = {}`, with the nonce copied to its front; a nonce of more than sixteen bytes
-- is copied past the end of the array.
unfoldable pub new_counter : List ℕ → Option (List ℕ)
new_counter nonce =
    if ltb 16 (length nonce) then none else some (nonce ++ replicate (16 - length nonce) 0)

-- `++counter[i]` from `i` downwards, for at most `n` bytes, until one is not zero.
unfoldable pub increment : ℕ → ℕ → List ℕ → List ℕ
increment zero i counter = counter
increment (suc n) i counter =
    let value = u8 (get_or counter i 0 + 1) in
    let next = set counter i value in
    let rest = increment n (i - 1) next in if value == 0 then rest else next

-- Both loops over the bytes as one: what is left of the key stream, and the counter of the next
-- sixteen bytes.
unfoldable pub counter_mode : List ℕ → List ℕ → List ℕ → List ℕ → List ℕ
counter_mode rk keystream counter [] = []
counter_mode rk [] counter (x ∷ xs) =
    let block = encrypt_block rk counter in
    bit_xor x (get_or block 0 0) ∷ counter_mode rk (drop 1 block) (increment 4 15 counter) xs
counter_mode rk (k ∷ ks) counter (x ∷ xs) = bit_xor x k ∷ counter_mode rk ks counter xs

-- `tag[i % tag_len] ^= x`
abbrev pub add_to_tag : ℕ → ℕ → List ℕ → List ℕ
add_to_tag i x tag = set tag (i % length tag) (bit_xor (get_or tag (i % length tag) 0) x)

unfoldable pub tag_plaintext : ℕ → List ℕ → List ℕ → List ℕ
tag_plaintext i [] tag = tag
tag_plaintext i (x ∷ xs) tag = tag_plaintext (i + 1) xs (add_to_tag i x tag)

-- `for (auto b : aad) tag[b % tag_len] ^= b`: the index is the byte itself.
unfoldable pub tag_aad : List ℕ → List ℕ → List ℕ
tag_aad [] tag = tag
tag_aad (b ∷ bs) tag = tag_aad bs (add_to_tag b b tag)

-- Both loops take remainders by `tag_len`, when there is a byte to add.
unfoldable pub compute_tag : ℕ → List ℕ → List ℕ → Option (List ℕ)
compute_tag tag_len aad plaintext =
    if tag_len == 0 && ltb 0 (length (plaintext ++ aad))
    then none
    else some (tag_aad aad (tag_plaintext 0 plaintext (replicate tag_len 0)))

unfoldable pub gcm_encrypt : List ℕ → List ℕ → List ℕ → List ℕ → ℕ → Option (List ℕ)
gcm_encrypt rk nonce aad plaintext tag_len = do
  counter ← new_counter nonce
  tag ← compute_tag tag_len aad plaintext
  some (counter_mode rk [] counter plaintext ++ tag)

abbrev pub same_bytes : List ℕ → List ℕ → Bool
same_bytes [] [] = true
same_bytes [] (y ∷ ys) = false
same_bytes (x ∷ xs) [] = false
same_bytes (x ∷ xs) (y ∷ ys) = x == y && same_bytes xs ys

-- What the code does with the ciphertext and the tag once they are cut apart.
unfoldable pub decrypt_parts :
    List ℕ → List ℕ → List ℕ → List ℕ → List ℕ → ℕ → Option (Result (List ℕ))
decrypt_parts rk nonce aad ct tag tag_len = do
  counter ← new_counter nonce
  let plaintext = counter_mode rk [] counter ct
  computed ← compute_tag tag_len aad plaintext
  some (if same_bytes computed tag then ok plaintext else err decryption_error)

unfoldable pub gcm_decrypt : List ℕ → List ℕ → List ℕ → List ℕ → ℕ → Option (Result (List ℕ))
gcm_decrypt rk nonce aad ciphertext tag_len =
    let n = length ciphertext in
    let rest =
      decrypt_parts rk nonce aad (take (n - tag_len) ciphertext) (drop (n - tag_len) ciphertext)
        tag_len in
    if ltb n tag_len then some (err decryption_error) else rest

unfoldable pub gmac : List ℕ → List ℕ → List ℕ → ℕ → Option (List ℕ)
gmac rk nonce message tag_len = gcm_encrypt rk nonce message [] tag_len
