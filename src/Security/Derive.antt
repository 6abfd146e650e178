-- ===== src/Security/Derive.antt =====
-- src/dlms/security/security.cpp: the key derivation. `has_openssl` is the build's choice
-- DLMS_HAS_OPENSSL. `none` is undefined behaviour.
use dlms_cosem_cpp.Base.{
  ℕ, ◌-◌, Bool, ◌||◌, List, [], ◌∷◌, ◌++◌, length, take, replicate, ltb, ◌==◌, if◌then◌else◌,
  Option, none, some,
}

-- `result.resize(length)`
abbrev pub resize : ℕ → List ℕ → List ℕ
resize n xs = take n xs ++ replicate (n - length xs) 0

-- `while (result.size() < length) counter++; result.resize(length);`. The loop has no side effect
-- and never changes its condition: to enter it is undefined behaviour.
unfoldable pub kdf_loop : ℕ → List ℕ → Option (List ℕ)
kdf_loop size result = if ltb (length result) size then none else some (resize size result)

module _ (has_openssl : Bool) where
  unfoldable pub kdf_hmac_sha256 : List ℕ → List ℕ → ℕ → Option (List ℕ)
  kdf_hmac_sha256 key context size = if has_openssl then kdf_loop size [] else some []

  -- `(suite == 2 || suite == 4) ? 32 : 16`
  abbrev pub key_size : ℕ → ℕ
  key_size suite = if suite == 2 || suite == 4 then 32 else 16

  unfoldable pub derive_encryption_key : List ℕ → List ℕ → ℕ → Option (List ℕ)
  derive_encryption_key mk st suite = kdf_hmac_sha256 mk (0x45 ∷ 0x4E ∷ 0x43 ∷ st) (key_size suite)

  unfoldable pub derive_authentication_key : List ℕ → List ℕ → ℕ → Option (List ℕ)
  derive_authentication_key mk st suite =
      kdf_hmac_sha256 mk (0x4D ∷ 0x41 ∷ 0x43 ∷ st) (key_size suite)
