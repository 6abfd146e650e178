-- ===== src/Ber/Runs.antt =====
-- Runs of src/dlms/asn1/ber.cpp on concrete elements.
use dlms_cosem_cpp.Base.{ℕ, ◌≡◌, ◌≢◌, ◌≤◌, arith, List, [], ◌∷◌, ◌++◌, length}
use dlms_cosem_cpp.Core.{ok, stuck}
use dlms_cosem_cpp.ByteBuffer.{of_bytes}
use dlms_cosem_cpp.Ber.Tlv.{BerTlv, read_all}
use dlms_cosem_cpp.Ber.Apdu.{
  AarqApdu, AareApdu, aarq_inner, aare_inner, encode_aarq, encode_aare, decode_aarq, decode_aare,
}
use dlms_cosem_cpp.Ber.RoundTrip.{tlvs_bytes, read_all-tlvs_bytes}
use dlms_cosem_cpp.Ber.Total.{decoders_total}
use dlms_cosem_cpp.Ber.Aarq.{decode_aarq-encode_aarq}
use dlms_cosem_cpp.Ber.Aare.{decode_aare-encode_aare}
use dlms_cosem_cpp.ByteBuffer.{write_u8, write_variable_length, write_bytes, variable_length_bytes}

abbrev two_elements : List BerTlv
two_elements = record { tag = 2; value = 7 ∷ [] } ∷ (record { tag = 4; value = [] } ∷ [])

read_all-tlvs_bytes_example : (read_all (of_bytes (tlvs_bytes two_elements))).0 ≡ ok two_elements
read_all-tlvs_bytes_example = read_all-tlvs_bytes two_elements (omega arith, (omega arith, tt))

-- An association request whose length says more than there is.
abbrev broken : List ℕ
broken = 0x60 ∷ (9 ∷ (0xA1 ∷ (1 ∷ [])))

decoders_total_example :
    ((read_all (of_bytes broken)).0 ≢ stuck)
    × ((read_all (of_bytes broken)).1.pos ≤ length broken)
    × (decode_aarq broken ≢ stuck)
    × (decode_aare broken ≢ stuck)
decoders_total_example = decoders_total broken

abbrev some_request : AarqApdu
some_request = record {
  application_context_name = 0x60 ∷ (0x85 ∷ []);
  calling_auth_value = [];
  mechanism_name = 1 ∷ [];
  user_information = 4 ∷ (2 ∷ []);
}

decode_aarq-encode_aarq_example :
    decode_aarq (encode_aarq some_request ++ (9 ∷ [])) ≡ ok some_request
unfolding aarq_inner write_u8 write_variable_length write_bytes variable_length_bytes
decode_aarq-encode_aarq_example = decode_aarq-encode_aarq some_request (9 ∷ []) (omega arith)

abbrev some_response : AareApdu
some_response = record {
  result = 0;
  application_context_name = 0x60 ∷ [];
  responding_auth_value = 8 ∷ [];
  mechanism_name = 1 ∷ [];
  user_information = [];
}

decode_aare-encode_aare_example :
    decode_aare (encode_aare some_response ++ [])
    ≡ ok (record some_response { mechanism_name = [] })
unfolding aare_inner write_u8 write_variable_length write_bytes variable_length_bytes
decode_aare-encode_aare_example = decode_aare-encode_aare some_response [] (omega arith)
