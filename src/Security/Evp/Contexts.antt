-- ===== src/Security/Evp/Contexts.antt =====
-- src/dlms/security/security.cpp: the contexts of OpenSSL that aes_gcm_encrypt and aes_gcm_decrypt open.
use dlms_cosem_cpp.Base.{
  ℕ, suc, ◌≡◌, refl, ◌∙◌, Bool, true, false, List, [], ◌∷◌, length, ltb, ◌==◌, Bool-cases, inl, inr,
}
use dlms_cosem_cpp.Security.Evp.{
  Evp, with_aad, encrypt_in, encrypt_ready, decrypt_in, decrypt_ready, aes_gcm_encrypt,
  aes_gcm_decrypt,
}

-- How OpenSSL counts its open contexts: `ctx_new` opens one when it succeeds, `ctx_free` closes one,
-- and no other call does either.
pub record ContextCount {E : Type 0} (evp : Evp E) : Type 0 where
  pub count : E → ℕ
  pub new_opened : (e : E) → (evp.ctx_new e).0 ≡ true → count (evp.ctx_new e).1 ≡ suc (count e)
  pub new_failed : (e : E) → (evp.ctx_new e).0 ≡ false → count (evp.ctx_new e).1 ≡ count e
  pub freed : (e : E) (n : ℕ) → count e ≡ suc n → count (evp.ctx_free e) ≡ n
  pub encrypt_init_kept :
      (w : Bool) (key iv : List ℕ) (e : E) → count (evp.encrypt_init w key iv e).1 ≡ count e
  pub decrypt_init_kept :
      (w : Bool) (key iv : List ℕ) (e : E) → count (evp.decrypt_init w key iv e).1 ≡ count e
  pub set_ivlen_kept : (n : ℕ) (e : E) → count (evp.set_ivlen n e) ≡ count e
  pub encrypt_aad_kept : (xs : List ℕ) (e : E) → count (evp.encrypt_aad xs e) ≡ count e
  pub decrypt_aad_kept : (xs : List ℕ) (e : E) → count (evp.decrypt_aad xs e) ≡ count e
  pub encrypt_update_kept : (xs : List ℕ) (e : E) → count (evp.encrypt_update xs e).1 ≡ count e
  pub decrypt_update_kept : (xs : List ℕ) (e : E) → count (evp.decrypt_update xs e).1 ≡ count e
  pub encrypt_final_kept : (e : E) → count (evp.encrypt_final e) ≡ count e
  pub decrypt_final_kept : (e : E) → count (evp.decrypt_final e).1 ≡ count e
  pub get_tag_kept : (n : ℕ) (e : E) → count (evp.get_tag n e).1 ≡ count e
  pub set_tag_kept : (xs : List ℕ) (e : E) → count (evp.set_tag xs e) ≡ count e

module _ {E : Type 0} (evp : Evp E) (laws : ContextCount evp) where
  aad_kept :
      (call : List ℕ → E → E)
      → ((xs : List ℕ) (e : E) → laws.count (call xs e) ≡ laws.count e)
      → (aad : List ℕ) (e : E) → laws.count (with_aad call aad e) ≡ laws.count e
  aad_kept call h [] e = refl
  aad_kept call h (x ∷ xs) e = h (x ∷ xs) e

  encrypt_ready-count :
      (iv aad plaintext : List ℕ) (tag_len : ℕ) (e : E) (n : ℕ)
      → laws.count e ≡ suc n
      → laws.count (encrypt_ready evp iv aad plaintext tag_len e).1 ≡ n
  encrypt_ready-count iv aad plaintext tag_len e n h = laws.freed _ n (
      laws.get_tag_kept tag_len _
      ∙ laws.encrypt_final_kept _
      ∙ laws.encrypt_update_kept plaintext _
      ∙ aad_kept evp.encrypt_aad laws.encrypt_aad_kept aad _
      ∙ laws.set_ivlen_kept (length iv) e
      ∙ h)

  decrypt_ready-count :
      (iv aad ct tag : List ℕ) (e : E) (n : ℕ)
      → laws.count e ≡ suc n
      → laws.count (decrypt_ready evp iv aad ct tag e).1 ≡ n
  decrypt_ready-count iv aad ct tag e n h = laws.freed _ n (
      laws.decrypt_final_kept _
      ∙ laws.set_tag_kept tag _
      ∙ laws.decrypt_update_kept ct _
      ∙ aad_kept evp.decrypt_aad laws.decrypt_aad_kept aad _
      ∙ laws.set_ivlen_kept (length iv) e
      ∙ h)

  encrypt_in-count :
      (key iv aad plaintext : List ℕ) (tag_len : ℕ) (e : E) (n : ℕ)
      → laws.count e ≡ suc n
      → laws.count (encrypt_in evp key iv aad plaintext tag_len e).1 ≡ n
  encrypt_in-count key iv aad plaintext tag_len e n h =
      let kept = laws.encrypt_init_kept (length key == 32) key iv e ∙ h in
      elim (Bool-cases (evp.encrypt_init (length key == 32) key iv e).0) [
        | inl t ↦ rw t (encrypt_ready-count iv aad plaintext tag_len _ n kept)
        | inr t ↦ rw t (laws.freed _ n kept)
      ]

  decrypt_in-count :
      (key iv aad ct tag : List ℕ) (e : E) (n : ℕ)
      → laws.count e ≡ suc n
      → laws.count (decrypt_in evp key iv aad ct tag e).1 ≡ n
  decrypt_in-count key iv aad ct tag e n h =
      let kept = laws.decrypt_init_kept (length key == 32) key iv e ∙ h in
      elim (Bool-cases (evp.decrypt_init (length key == 32) key iv e).0) [
        | inl t ↦ rw t (decrypt_ready-count iv aad ct tag _ n kept)
        | inr t ↦ rw t (laws.freed _ n kept)
      ]

  -- On every path, errors included, `aes_gcm_encrypt` and `aes_gcm_decrypt` close the contexts that
  -- they open and no others, where OpenSSL counts its contexts as said above.
  pub aes_gcm-contexts :
      (key iv aad text : List ℕ) (tag_len : ℕ) (e : E)
      → (laws.count (aes_gcm_encrypt evp key iv aad text tag_len e).1 ≡ laws.count e)
        × (laws.count (aes_gcm_decrypt evp key iv aad text tag_len e).1 ≡ laws.count e)
  unfolding aes_gcm_encrypt aes_gcm_decrypt
  aes_gcm-contexts key iv aad text tag_len e = elim (Bool-cases (evp.ctx_new e).0) [
    | inl t ↦
        let opened = laws.new_opened e t in
        (
          rw t (encrypt_in-count key iv aad text tag_len _ _ opened),
          elim (Bool-cases (ltb (length text) tag_len)) [
            | inl u ↦ rw u refl
            | inr u ↦ rw (u, t) (decrypt_in-count key iv aad _ _ _ _ opened)
          ],
        )
    | inr t ↦
        let same = laws.new_failed e t in
        (
          rw t same,
          elim (Bool-cases (ltb (length text) tag_len)) [
            | inl u ↦ rw u refl
            | inr u ↦ rw (u, t) same
          ],
        )
  ]
