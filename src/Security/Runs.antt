-- ===== src/Security/Runs.antt =====
-- Runs of src/dlms/security/security.cpp on concrete values.
use dlms_cosem_cpp.Base.{ℕ, suc, ◌-◌, ◌≡◌, refl, arith, true, false, List, [], ◌∷◌, some}
use dlms_cosem_cpp.Security.Evp.{Evp, aes_gcm_encrypt, aes_gcm_decrypt}
use dlms_cosem_cpp.Security.Evp.Contexts.{ContextCount, aes_gcm-contexts}
use dlms_cosem_cpp.Security.Derive.{
  kdf_hmac_sha256, derive_encryption_key, derive_authentication_key,
}
use dlms_cosem_cpp.Security.{SecurityControlField, from_bytes, to_byte}
use dlms_cosem_cpp.Security.Laws.{from_bytes-to_byte, make_iv-injective}

abbrev ciphered : SecurityControlField
ciphered = record {
  security_suite = 2;
  authenticated = true;
  encrypted = true;
  broadcast_key = false;
  compressed = false;
}

from_bytes-to_byte_example : from_bytes (to_byte ciphered) ≡ ciphered
from_bytes-to_byte_example = from_bytes-to_byte ciphered (omega arith)

abbrev title : List ℕ
title = 0x4B ∷ (0x46 ∷ [])

abbrev iv_counter : ℕ
iv_counter = 301

make_iv-injective_example : (title ≡ title) × (iv_counter ≡ iv_counter)
make_iv-injective_example =
    make_iv-injective title title iv_counter iv_counter refl (omega arith) (omega arith) refl

-- Without OpenSSL the derived keys are empty.
no_keys :
    (derive_encryption_key false [] title 2 ≡ some [])
    × (derive_authentication_key false [] title 0 ≡ some [])
unfolding derive_encryption_key derive_authentication_key kdf_hmac_sha256
no_keys = (refl, refl)

-- A library that only counts its contexts, and encrypts to the text itself.
abbrev counting : Evp ℕ
counting = record {
  ctx_new = λ n. (true, suc n);
  encrypt_init = λ w key iv n. (true, n);
  decrypt_init = λ w key iv n. (true, n);
  set_ivlen = λ k n. n;
  encrypt_aad = λ xs n. n;
  decrypt_aad = λ xs n. n;
  encrypt_update = λ xs n. (xs, n);
  decrypt_update = λ xs n. (xs, n);
  encrypt_final = λ n. n;
  decrypt_final = λ n. (false, n);
  get_tag = λ k n. ([], n);
  set_tag = λ xs n. n;
  ctx_free = λ n. n - 1;
}

abbrev counted : ContextCount counting
counted = record {
  count = λ n. n;
  new_opened = λ e t. refl;
  new_failed = λ e t. cc;
  freed = λ e n h. omega (arith, h);
  encrypt_init_kept = λ w key iv e. refl;
  decrypt_init_kept = λ w key iv e. refl;
  set_ivlen_kept = λ n e. refl;
  encrypt_aad_kept = λ xs e. refl;
  decrypt_aad_kept = λ xs e. refl;
  encrypt_update_kept = λ xs e. refl;
  decrypt_update_kept = λ xs e. refl;
  encrypt_final_kept = λ e. refl;
  decrypt_final_kept = λ e. refl;
  get_tag_kept = λ n e. refl;
  set_tag_kept = λ xs e. refl;
}

aes_gcm-contexts_example :
    ((aes_gcm_encrypt counting title [] [] title 0 3).1 ≡ 3)
    × ((aes_gcm_decrypt counting title [] [] title 0 3).1 ≡ 3)
aes_gcm-contexts_example = aes_gcm-contexts counting counted title [] [] title 0 3
