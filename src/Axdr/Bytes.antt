-- ===== src/Axdr/Bytes.antt =====
-- What `encode_value` of src/dlms/axdr/encoder.cpp appends, as a list of bytes.
use dlms_cosem_cpp.Base.{
  ℕ, ◌^◌, ◌≡◌, refl, sym, ap, ◌∙◌, List, [], ◌∷◌, ◌++◌, length, append-nil, if◌then◌else◌,
}
use dlms_cosem_cpp.Base.Int.{to_unsigned}
use dlms_cosem_cpp.Core.Tag
use dlms_cosem_cpp.ByteBuffer.{
  ByteBuffer, append, u16_bytes, u32_bytes, u64_bytes, variable_length_bytes,
}
use dlms_cosem_cpp.ByteBuffer.View.{append-append, append_three}
use dlms_cosem_cpp.Axdr.Value.{
  DlmsValue, DlmsValues, null, bool, int8, int16, int32, int64, uint8, uint16, uint32, uint64,
  float, double, octets, string, array, structure, nil, cons, count, get_tag,
}
use dlms_cosem_cpp.Axdr.Encoder.{encode_value, encode_values}

-- The tag, and what follows it.
unfoldable mutual
  unfolding get_tag

  pub payload : DlmsValue → List ℕ
  payload null = []
  payload (bool v) = (if v then 1 else 0) ∷ []
  payload (int8 z) = to_unsigned (2 ^ 8) z ∷ []
  payload (int16 z) = u16_bytes (to_unsigned (2 ^ 16) z)
  payload (int32 z) = u32_bytes (to_unsigned (2 ^ 32) z)
  payload (int64 z) = u64_bytes (to_unsigned (2 ^ 64) z)
  payload (uint8 n) = n ∷ []
  payload (uint16 n) = u16_bytes n
  payload (uint32 n) = u32_bytes n
  payload (uint64 n) = u64_bytes n
  payload (float xs) = xs
  payload (double xs) = xs
  payload (octets xs) = variable_length_bytes (length xs) ++ xs
  payload (string xs) = variable_length_bytes (length xs) ++ xs
  payload (array vs) = variable_length_bytes (count vs) ++ items_bytes vs
  payload (structure vs) = variable_length_bytes (count vs) ++ items_bytes vs

  pub items_bytes : DlmsValues → List ℕ
  items_bytes nil = []
  items_bytes (cons v vs) = (get_tag v ∷ payload v) ++ items_bytes vs

abbrev pub value_bytes : DlmsValue → List ℕ
value_bytes v = get_tag v ∷ payload v

mutual
  unfolding encode_value payload

  encode_value-append :
      (v : DlmsValue) (b : ByteBuffer) → encode_value v b ≡ append (value_bytes v) b
  encode_value-append null b = refl
  encode_value-append (bool v) b = append-append b (Tag.boolean ∷ []) _
  encode_value-append (int8 z) b = append-append b (Tag.integer ∷ []) _
  encode_value-append (int16 z) b = append-append b (Tag.long ∷ []) _
  encode_value-append (int32 z) b = append-append b (Tag.double_long ∷ []) _
  encode_value-append (int64 z) b = append-append b (Tag.long64 ∷ []) _
  encode_value-append (uint8 n) b = append-append b (Tag.unsigned_integer ∷ []) _
  encode_value-append (uint16 n) b = append-append b (Tag.unsigned_long ∷ []) _
  encode_value-append (uint32 n) b = append-append b (Tag.double_long_unsigned ∷ []) _
  encode_value-append (uint64 n) b = append-append b (Tag.unsigned_long64 ∷ []) _
  encode_value-append (float xs) b = append-append b (Tag.float32 ∷ []) xs
  encode_value-append (double xs) b = append-append b (Tag.float64 ∷ []) xs
  encode_value-append (octets xs) b =
      append_three b (Tag.octet_string ∷ []) (variable_length_bytes (length xs)) xs
  encode_value-append (string xs) b =
      append_three b (Tag.visible_string ∷ []) (variable_length_bytes (length xs)) xs
  encode_value-append (array vs) b =
      encode_values-append vs _
      ∙ append_three b (Tag.array ∷ []) (variable_length_bytes (count vs)) (items_bytes vs)
  encode_value-append (structure vs) b =
      encode_values-append vs _
      ∙ append_three b (Tag.structure ∷ []) (variable_length_bytes (count vs)) (items_bytes vs)

  encode_values-append :
      (vs : DlmsValues) (b : ByteBuffer) → encode_values vs b ≡ append (items_bytes vs) b
  encode_values-append nil b =
      ap (λ (t : List ℕ). record b { bytes = t }) (sym (append-nil b.bytes))
  encode_values-append (cons v vs) b =
      encode_values-append vs (encode_value v b)
      ∙ ap (append (items_bytes vs)) (encode_value-append v b)
      ∙ append-append b (value_bytes v) (items_bytes vs)

pub encode_value-bytes :
    (v : DlmsValue) (b : ByteBuffer) → encode_value v b ≡ append (value_bytes v) b
encode_value-bytes = encode_value-append
