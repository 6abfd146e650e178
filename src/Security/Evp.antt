-- ===== src/Security/Evp.antt =====
-- src/dlms/security/security.cpp: aes_gcm_encrypt and aes_gcm_decrypt over the calls of OpenSSL.
pub mod Contexts
use dlms_cosem_cpp.Base.{
  ℕ, ◌-◌, Bool, true, false, List, [], ◌∷◌, ◌++◌, length, take, drop, ltb, ◌==◌, if◌then◌else◌,
}
use dlms_cosem_cpp.Core.{Result, ok, err, encryption_error, decryption_error}
use dlms_cosem_cpp.Security.{Cipher}

-- The calls of OpenSSL on the one context that a function has, each a change of the library's state
-- `E`. A Boolean is the success of the call; `aes_256` chooses the cipher. The calls that the source
-- does not test return no Boolean. An update returns the bytes that the output buffer then holds.
pub record Evp (E : Type 0) : Type 0 where
  pub ctx_new : E → Bool × E
  pub encrypt_init : Bool → List ℕ → List ℕ → E → Bool × E
  pub decrypt_init : Bool → List ℕ → List ℕ → E → Bool × E
  pub set_ivlen : ℕ → E → E
  pub encrypt_aad : List ℕ → E → E
  pub decrypt_aad : List ℕ → E → E
  pub encrypt_update : List ℕ → E → List ℕ × E
  pub decrypt_update : List ℕ → E → List ℕ × E
  pub encrypt_final : E → E
  pub decrypt_final : E → Bool × E
  pub get_tag : ℕ → E → List ℕ × E
  pub set_tag : List ℕ → E → E
  pub ctx_free : E → E

-- `if (!aad.empty()) …`
abbrev pub with_aad : {E : Type 0} → (List ℕ → E → E) → List ℕ → E → E
with_aad call [] e = e
with_aad call (x ∷ xs) e = call (x ∷ xs) e

module _ {E : Type 0} (evp : Evp E) where
  abbrev pub encrypt_ready : List ℕ → List ℕ → List ℕ → ℕ → E → Result (List ℕ) × E
  encrypt_ready iv aad plaintext tag_len e =
      let u =
        evp.encrypt_update plaintext (with_aad evp.encrypt_aad aad (evp.set_ivlen (length iv) e)) in
      let t = evp.get_tag tag_len (evp.encrypt_final u.1) in (ok (u.0 ++ t.0), evp.ctx_free t.1)

  abbrev pub encrypt_in : List ℕ → List ℕ → List ℕ → List ℕ → ℕ → E → Result (List ℕ) × E
  encrypt_in key iv aad plaintext tag_len e =
      let i = evp.encrypt_init (length key == 32) key iv e in
      if i.0
      then encrypt_ready iv aad plaintext tag_len i.1
      else (err encryption_error, evp.ctx_free i.1)

  unfoldable pub aes_gcm_encrypt : List ℕ → List ℕ → List ℕ → List ℕ → ℕ → E → Result (List ℕ) × E
  aes_gcm_encrypt key iv aad plaintext tag_len e =
      let c = evp.ctx_new e in
      if c.0 then encrypt_in key iv aad plaintext tag_len c.1 else (err encryption_error, c.1)

  abbrev pub decrypt_ready : List ℕ → List ℕ → List ℕ → List ℕ → E → Result (List ℕ) × E
  decrypt_ready iv aad ct tag e =
      let u = evp.decrypt_update ct (with_aad evp.decrypt_aad aad (evp.set_ivlen (length iv) e)) in
      let f = evp.decrypt_final (evp.set_tag tag u.1) in
      (if f.0 then ok u.0 else err decryption_error, evp.ctx_free f.1)

  abbrev pub decrypt_in : List ℕ → List ℕ → List ℕ → List ℕ → List ℕ → E → Result (List ℕ) × E
  decrypt_in key iv aad ct tag e =
      let i = evp.decrypt_init (length key == 32) key iv e in
      if i.0 then decrypt_ready iv aad ct tag i.1 else (err decryption_error, evp.ctx_free i.1)

  unfoldable pub aes_gcm_decrypt : List ℕ → List ℕ → List ℕ → List ℕ → ℕ → E → Result (List ℕ) × E
  aes_gcm_decrypt key iv aad ciphertext tag_len e =
      let at = length ciphertext - tag_len in
      let c = evp.ctx_new e in
      let opened =
        if c.0
        then decrypt_in key iv aad (take at ciphertext) (drop at ciphertext) c.1
        else (err decryption_error, c.1) in
      if ltb (length ciphertext) tag_len then (err decryption_error, e) else opened

  -- The cipher of the wrappers, with the library in state `e` at every call, and its tag length.
  abbrev pub evp_cipher : E → ℕ → Cipher
  unfolding aes_gcm_encrypt aes_gcm_decrypt
  evp_cipher e tag_len = record {
    aes_gcm_encrypt = λ key iv aad text. (aes_gcm_encrypt key iv aad text tag_len e).0;
    aes_gcm_decrypt = λ key iv aad text. (aes_gcm_decrypt key iv aad text tag_len e).0;
  }
