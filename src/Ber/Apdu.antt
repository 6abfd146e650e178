-- ===== src/Ber/Apdu.antt =====
-- src/dlms/asn1/ber.cpp: the association request `AarqApdu` and the response `AareApdu`.
use dlms_cosem_cpp.Base.{ℕ, not, ◌&&◌, List, [], length, get_or, is_empty, ◌==◌, if◌then◌else◌}
use dlms_cosem_cpp.Core.{Result, invalid_tag}
use dlms_cosem_cpp.ByteBuffer.{
  Reader, Writer, ◌>>=◌, ◌>>◌, of_bytes, fail, write_u8, write_bytes, write_variable_length,
}
use dlms_cosem_cpp.Ber.Tlv.{BerTlv, encode, read_tlv, all_tlvs}

pub record AarqApdu : Type 0 where
  pub application_context_name : List ℕ
  pub calling_auth_value : List ℕ
  pub mechanism_name : List ℕ
  pub user_information : List ℕ

pub record AareApdu : Type 0 where
  pub result : ℕ
  pub application_context_name : List ℕ
  pub responding_auth_value : List ℕ
  pub mechanism_name : List ℕ
  pub user_information : List ℕ

-- `if (!xs.empty()) { write_u8(tag); write_variable_length(xs.size()); write_bytes(xs); }`
abbrev pub write_field : ℕ → List ℕ → Writer
write_field tag xs =
    if is_empty xs
    then (λ b. b)
    else (do write_u8 tag; write_variable_length (length xs); write_bytes xs)

-- The buffer `inner` of `AarqApdu::encode`.
unfoldable pub aarq_inner : AarqApdu → Writer
unfolding write_u8 write_variable_length write_bytes
aarq_inner a = do
  write_field 0xA1 a.application_context_name
  write_field 0xA7 a.mechanism_name
  write_field 0x88 a.calling_auth_value
  write_field 0xBE a.user_information

unfoldable pub encode_aarq : AarqApdu → List ℕ
encode_aarq a = (encode 0x60 (aarq_inner a (of_bytes [])).bytes (of_bytes [])).bytes

abbrev pub empty_aarq : AarqApdu
empty_aarq = record {
  application_context_name = [];
  calling_auth_value = [];
  mechanism_name = [];
  user_information = [];
}

-- The body of the loop of `AarqApdu::decode`.
unfoldable pub assign_aarq : AarqApdu → BerTlv → AarqApdu
assign_aarq a t =
    if t.tag == 0xA1
    then record a { application_context_name = t.value }
    else (if t.tag == 0xA7
        then record a { mechanism_name = t.value }
        else (if t.tag == 0x88
            then record a { calling_auth_value = t.value }
            else (if t.tag == 0xBE then record a { user_information = t.value } else a)))

-- The value of an element is decoded from a buffer of its own.
abbrev pub aarq_of : BerTlv → Reader AarqApdu
aarq_of tlv =
    if tlv.tag == 0x60
    then (λ b. ((all_tlvs assign_aarq empty_aarq (of_bytes tlv.value)).0, b))
    else fail invalid_tag

unfoldable pub decode_aarq : List ℕ → Result AarqApdu
decode_aarq d = ((read_tlv >>= aarq_of) (of_bytes d)).0

-- The buffer `inner` of `AareApdu::encode`. The code does not write `mechanism_name`.
unfoldable pub aare_inner : AareApdu → Writer
unfolding write_u8 write_variable_length write_bytes
aare_inner a = do
  write_u8 0x82
  write_u8 1
  write_u8 a.result
  write_field 0xA1 a.application_context_name
  write_field 0x89 a.responding_auth_value
  write_field 0xBE a.user_information

unfoldable pub encode_aare : AareApdu → List ℕ
encode_aare a = (encode 0x61 (aare_inner a (of_bytes [])).bytes (of_bytes [])).bytes

abbrev pub empty_aare : AareApdu
empty_aare = record {
  result = 0;
  application_context_name = [];
  responding_auth_value = [];
  mechanism_name = [];
  user_information = [];
}

unfoldable pub assign_aare : AareApdu → BerTlv → AareApdu
assign_aare a t =
    if t.tag == 0x82 && not (is_empty t.value)
    then record a { result = get_or t.value 0 0 }
    else (if t.tag == 0xA1
        then record a { application_context_name = t.value }
        else (if t.tag == 0x89
            then record a { responding_auth_value = t.value }
            else (if t.tag == 0xBE then record a { user_information = t.value } else a)))

abbrev pub aare_of : BerTlv → Reader AareApdu
aare_of tlv =
    if tlv.tag == 0x61
    then (λ b. ((all_tlvs assign_aare empty_aare (of_bytes tlv.value)).0, b))
    else fail invalid_tag

unfoldable pub decode_aare : List ℕ → Result AareApdu
decode_aare d = ((read_tlv >>= aare_of) (of_bytes d)).0
