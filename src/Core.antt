-- ===== src/Core.antt =====
-- include/dlms/core/types.hpp: the error codes, the result type and the codes of the A-XDR tags.
pub mod Tag
use Prim.Native.String.{String}
use mathlib.Core.Bool.{Bool, true, false}

pub data DlmsError : Type 0 where
  success invalid_data buffer_overflow buffer_underflow : DlmsError
  invalid_tag invalid_length invalid_obis invalid_address : DlmsError
  crc_error encryption_error decryption_error auth_error : DlmsError
  not_supported timeout connection_error object_undefined : DlmsError
  type_mismatch access_denied hardware_fault temporary_failure : DlmsError

-- `std::variant<T, DlmsError>`. `stuck` is no value of the program: a loop of the model ran out of
-- fuel.
pub data Result {ℓ} (A : Type ℓ) : Type ℓ where
  ok : A → Result A
  err : DlmsError → Result A
  stuck : Result A

unfoldable dlms_error_message : DlmsError → String
dlms_error_message success = "success"
dlms_error_message invalid_data = "invalid data"
dlms_error_message buffer_overflow = "buffer overflow"
dlms_error_message buffer_underflow = "buffer underflow"
dlms_error_message invalid_tag = "invalid tag"
dlms_error_message invalid_length = "invalid length"
dlms_error_message invalid_obis = "invalid OBIS code"
dlms_error_message invalid_address = "invalid address"
dlms_error_message crc_error = "CRC error"
dlms_error_message encryption_error = "encryption error"
dlms_error_message decryption_error = "decryption error"
dlms_error_message auth_error = "authentication error"
dlms_error_message not_supported = "not supported"
dlms_error_message timeout = "timeout"
dlms_error_message connection_error = "connection error"
dlms_error_message object_undefined = "object undefined"
dlms_error_message type_mismatch = "type mismatch"
dlms_error_message access_denied = "access denied"
dlms_error_message hardware_fault = "hardware fault"
dlms_error_message temporary_failure = "temporary failure"

-- `is_ok`, and `get_err`, which is asked of an error only.
unfoldable pub is_ok {ℓ} : {A : Type ℓ} → Result A → Bool
is_ok (ok _) = true
is_ok _ = false
