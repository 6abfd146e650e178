-- ===== src/Sm4/Gcm/Laws.antt =====
-- src/dlms/security/sm4.cpp: what `gcm_decrypt` makes of the bytes of `gcm_encrypt`, and what the
-- tag depends on.
use mathlib.Core.Path.{subst}
use dlms_cosem_cpp.Base.{
  ℕ, zero, suc, ◌+◌, ◌≤◌, ◌<◌, sym, some, ◌-◌, ◌≡◌, refl, ◌∙◌, arith, true, List, [], ◌∷◌, ◌++◌,
  length, length-append, get_or, drop, replicate, set, take-append, drop-append, le→ltb, ==_refl,
}
use dlms_cosem_cpp.Base.Bits.{bit_xor_cancel}
use dlms_cosem_cpp.Core.{ok}
use dlms_cosem_cpp.Sm4.Block.{encrypt_block}
use dlms_cosem_cpp.Sm4.Gcm.{
  new_counter, increment, counter_mode, add_to_tag, tag_plaintext, tag_aad, compute_tag,
  gcm_encrypt, same_bytes, gcm_decrypt, gmac, decrypt_parts, ◌>>=◌,
}

counter_mode-counter_mode :
    (rk keystream counter xs : List ℕ)
    → counter_mode rk keystream counter (counter_mode rk keystream counter xs) ≡ xs
unfolding counter_mode
counter_mode-counter_mode rk [] counter [] = refl
counter_mode-counter_mode rk (k ∷ ks) counter [] = refl
counter_mode-counter_mode rk [] counter (x ∷ xs) =
    let block = encrypt_block rk counter in
    rw (
      bit_xor_cancel x (get_or block 0 0),
      counter_mode-counter_mode rk (drop 1 block) (increment 4 15 counter) xs,
    )
counter_mode-counter_mode rk (k ∷ ks) counter (x ∷ xs) =
    rw (bit_xor_cancel x k, counter_mode-counter_mode rk ks counter xs)

length-counter_mode :
    (rk keystream counter xs : List ℕ) → length (counter_mode rk keystream counter xs) ≡ length xs
unfolding counter_mode
length-counter_mode rk [] counter [] = refl
length-counter_mode rk (k ∷ ks) counter [] = refl
length-counter_mode rk [] counter (x ∷ xs) =
    let block = encrypt_block rk counter in
    rw (length-counter_mode rk (drop 1 block) (increment 4 15 counter) xs)
length-counter_mode rk (k ∷ ks) counter (x ∷ xs) = rw (length-counter_mode rk ks counter xs)

length-set : (xs : List ℕ) (i v : ℕ) → length (set xs i v) ≡ length xs
length-set [] i v = refl
length-set (x ∷ xs) zero v = refl
length-set (x ∷ xs) (suc i) v = rw (length-set xs i v)

length-tag_plaintext : (i : ℕ) (xs tag : List ℕ) → length (tag_plaintext i xs tag) ≡ length tag
unfolding tag_plaintext
length-tag_plaintext i [] tag = refl
length-tag_plaintext i (x ∷ xs) tag =
    length-tag_plaintext (i + 1) xs (add_to_tag i x tag) ∙ length-set tag _ _

length-tag_aad : (xs tag : List ℕ) → length (tag_aad xs tag) ≡ length tag
unfolding tag_aad
length-tag_aad [] tag = refl
length-tag_aad (x ∷ xs) tag = length-tag_aad xs (add_to_tag x x tag) ∙ length-set tag _ _

length-replicate : (n : ℕ) → length {A = ℕ} (replicate n 0) ≡ n
length-replicate zero = refl
length-replicate (suc n) = rw (length-replicate n)

-- The tag of a call that divides by no zero.
abbrev pub tag_of : ℕ → List ℕ → List ℕ → List ℕ
tag_of n aad plaintext = tag_aad aad (tag_plaintext 0 plaintext (replicate n 0))

length-tag_of : (n : ℕ) (aad plaintext : List ℕ) → length (tag_of n aad plaintext) ≡ n
length-tag_of n aad plaintext =
    length-tag_aad aad _ ∙ length-tag_plaintext 0 plaintext _ ∙ length-replicate n

compute_tag-defined :
    (n : ℕ) (aad plaintext : List ℕ)
    → 0 < n
    → compute_tag n aad plaintext ≡ some (tag_of n aad plaintext)
unfolding compute_tag
compute_tag-defined n aad plaintext h = ground arith

abbrev pub padded : List ℕ → List ℕ
padded nonce = nonce ++ replicate (16 - length nonce) 0

new_counter-defined : (nonce : List ℕ) → length nonce ≤ 16 → new_counter nonce ≡ some (padded nonce)
unfolding new_counter
new_counter-defined nonce h = ground arith

gcm_encrypt-defined :
    (rk nonce aad plaintext : List ℕ) (tag_len : ℕ)
    → length nonce ≤ 16
    → 0 < tag_len
    → gcm_encrypt rk nonce aad plaintext tag_len
      ≡ some (counter_mode rk [] (padded nonce) plaintext ++ tag_of tag_len aad plaintext)
unfolding gcm_encrypt
gcm_encrypt-defined rk nonce aad plaintext tag_len fits positive =
    rw (new_counter-defined nonce fits, compute_tag-defined tag_len aad plaintext positive)

same_bytes_refl : (xs : List ℕ) → same_bytes xs xs ≡ true
same_bytes_refl [] = refl
same_bytes_refl (x ∷ xs) = rw (==_refl x) (same_bytes_refl xs)

decrypt_parts-counter_mode :
    (rk nonce aad plaintext : List ℕ) (tag_len : ℕ)
    → length nonce ≤ 16
    → 0 < tag_len
    → decrypt_parts rk nonce aad
        (counter_mode rk [] (padded nonce) plaintext)
        (tag_of tag_len aad plaintext)
        tag_len
      ≡ some (ok plaintext)
unfolding decrypt_parts
decrypt_parts-counter_mode rk nonce aad plaintext tag_len fits positive = rw (
  new_counter-defined nonce fits,
  counter_mode-counter_mode rk [] (padded nonce) plaintext,
  compute_tag-defined tag_len aad plaintext positive,
  same_bytes_refl (tag_of tag_len aad plaintext),
)

gcm_decrypt-append :
    (rk nonce aad text tag : List ℕ)
    → gcm_decrypt rk nonce aad (text ++ tag) (length tag)
      ≡ decrypt_parts rk nonce aad text tag (length tag)
unfolding gcm_decrypt
gcm_decrypt-append rk nonce aad text tag =
    let size = length-append text tag in
    let cut : length (text ++ tag) - length tag ≡ length text = omega (arith, size) in
    rw (
      le→ltb (length (text ++ tag)) (length tag) (omega (arith, size)),
      cut,
      take-append text tag,
      drop-append text tag,
    )

-- With a nonce of at most sixteen bytes and a tag of at least one byte, `gcm_encrypt` is defined, and
-- what it makes is decrypted to the plaintext, its tag accepted, under any round keys and for any
-- additional data.
pub gcm_decrypt-gcm_encrypt :
    (rk nonce aad plaintext : List ℕ) (tag_len : ℕ)
    → length nonce ≤ 16
    → 0 < tag_len
    → (gcm_encrypt rk nonce aad plaintext tag_len >>= λ c. gcm_decrypt rk nonce aad c tag_len)
      ≡ some (ok plaintext)
gcm_decrypt-gcm_encrypt rk nonce aad plaintext tag_len fits positive =
    let text = counter_mode rk [] (padded nonce) plaintext in
    let tag = tag_of tag_len aad plaintext in
    let cut : gcm_decrypt rk nonce aad (text ++ tag) tag_len
        ≡ decrypt_parts rk nonce aad text tag tag_len =
      subst (λ n. gcm_decrypt rk nonce aad (text ++ tag) n ≡ decrypt_parts rk nonce aad text tag n)
        (length-tag_of tag_len aad plaintext) (gcm_decrypt-append rk nonce aad text tag) in
    rw (gcm_encrypt-defined rk nonce aad plaintext tag_len fits positive)
      (cut ∙ decrypt_parts-counter_mode rk nonce aad plaintext tag_len fits positive)

-- With nonces of at most sixteen bytes and a tag of at least one byte, `gmac` is defined and depends
-- neither on the key nor on the nonce: its bytes are an exclusive or of the message alone.
pub gmac-key_free :
    (rk rk' nonce nonce' message : List ℕ) (tag_len : ℕ)
    → length nonce ≤ 16
    → length nonce' ≤ 16
    → 0 < tag_len
    → (gmac rk nonce message tag_len ≡ gmac rk' nonce' message tag_len)
      × (gmac rk nonce message tag_len ≡ some (tag_aad message (replicate tag_len 0)))
unfolding gmac counter_mode tag_plaintext
gmac-key_free rk rk' nonce nonce' message tag_len fits fits' positive =
    let here = gcm_encrypt-defined rk nonce message [] tag_len fits positive in
    let there = gcm_encrypt-defined rk' nonce' message [] tag_len fits' positive in
    (here ∙ sym there, here)
