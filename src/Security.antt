-- ===== src/Security.antt =====
-- include/dlms/security/security.hpp and src/dlms/security/security.cpp: the control field, the
-- suites, and the wrappers of the cipher, which is a parameter here.
pub mod Derive
pub mod Evp
pub mod Laws
mod Runs
use dlms_cosem_cpp.Base.{
  ℕ, ◌+◌, Bool, true, false, ◌||◌, not, List, [], ◌∷◌, ◌++◌, length, ◌==◌, if◌then◌else◌, bit_and,
  bit_or,
}
use dlms_cosem_cpp.Base.Bits.{◌>>>◌, u8}
use dlms_cosem_cpp.Core.{Result}

pub record SecurityControlField : Type 0 where
  pub security_suite : ℕ
  pub authenticated : Bool
  pub encrypted : Bool
  pub broadcast_key : Bool
  pub compressed : Bool

unfoldable pub from_bytes : ℕ → SecurityControlField
from_bytes b = record {
  security_suite = bit_and b 0x0F;
  authenticated = not (bit_and (b >>> 4) 0x01 == 0);
  encrypted = not (bit_and (b >>> 5) 0x01 == 0);
  broadcast_key = not (bit_and (b >>> 6) 0x01 == 0);
  compressed = not (bit_and (b >>> 7) 0x01 == 0);
}

abbrev pub or_if : Bool → ℕ → ℕ → ℕ
or_if c mask b = if c then bit_or b mask else b

unfoldable pub to_byte : SecurityControlField → ℕ
to_byte sc = or_if sc.compressed 0x80 (
    or_if sc.broadcast_key 0x40
      (or_if sc.encrypted 0x20 (or_if sc.authenticated 0x10 (bit_and sc.security_suite 0x0F))))

-- `const char* algorithm`
pub data Algorithm : Type 0 where
  aes_128_gcm aes_256_gcm aes_128_ccm aes_256_ccm sm4_gcm unknown : Algorithm

pub record SecuritySuite : Type 0 where
  pub number : ℕ
  pub key_length : ℕ
  pub algorithm : Algorithm

unfoldable pub from_number : ℕ → SecuritySuite
from_number n =
    if n == 0 || n == 1
    then record { number = n; key_length = 16; algorithm = aes_128_gcm }
    else (if n == 2
        then record { number = n; key_length = 32; algorithm = aes_256_gcm }
        else (if n == 3
            then record { number = n; key_length = 16; algorithm = aes_128_ccm }
            else (if n == 4
                then record { number = n; key_length = 32; algorithm = aes_256_ccm }
                else (if n == 5
                    then record { number = n; key_length = 16; algorithm = sm4_gcm }
                    else record { number = 0; key_length = 16; algorithm = unknown }))))

unfoldable pub validate_key : SecuritySuite → List ℕ → Bool
validate_key suite key = length key == suite.key_length

unfoldable pub make_iv : List ℕ → ℕ → List ℕ
make_iv system_title ic =
    system_title
    ++ (u8 (bit_and (ic >>> 24) 0xFF)
        ∷ (u8 (bit_and (ic >>> 16) 0xFF)
            ∷ (u8 (bit_and (ic >>> 8) 0xFF) ∷ (u8 (bit_and ic 0xFF) ∷ []))))

abbrev pub make_aad : SecurityControlField → List ℕ → List ℕ
make_aad sc auth_key = to_byte sc ∷ auth_key

-- `aes_gcm_encrypt` and `aes_gcm_decrypt` as the wrappers call them: the arguments are the key, the
-- initialisation vector, the additional data and the text. Evp has them over the calls of OpenSSL.
pub record Cipher : Type 0 where
  pub aes_gcm_encrypt : List ℕ → List ℕ → List ℕ → List ℕ → Result (List ℕ)
  pub aes_gcm_decrypt : List ℕ → List ℕ → List ℕ → List ℕ → Result (List ℕ)

module _ (cipher : Cipher) where
  unfoldable pub encrypt :
      SecurityControlField → List ℕ → ℕ → List ℕ → List ℕ → List ℕ → Result (List ℕ)
  encrypt sc system_title invocation_counter key plaintext auth_key =
      cipher.aes_gcm_encrypt key (make_iv system_title invocation_counter) (make_aad sc auth_key)
        plaintext

  unfoldable pub decrypt :
      SecurityControlField → List ℕ → ℕ → List ℕ → List ℕ → List ℕ → Result (List ℕ)
  decrypt sc system_title invocation_counter key ciphertext auth_key =
      cipher.aes_gcm_decrypt key (make_iv system_title invocation_counter) (make_aad sc auth_key)
        ciphertext

  unfoldable pub gmac :
      SecurityControlField → List ℕ → ℕ → List ℕ → List ℕ → List ℕ → Result (List ℕ)
  gmac sc system_title invocation_counter key auth_key challenge =
      encrypt sc system_title invocation_counter key [] auth_key
