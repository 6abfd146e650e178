-- ===== src/Ber/Tlv.antt =====
-- src/dlms/asn1/ber.cpp: `BerEncoder` and `BerDecoder`, whose state is a buffer.
use dlms_cosem_cpp.Base.{
  ℕ, zero, suc, ◌-◌, bit_or, Bool, true, false, List, [], ◌∷◌, ◌++◌, length, ltb, ◌==◌,
  if◌then◌else◌,
}
use dlms_cosem_cpp.Base.Bits.{u8, ◌>>>◌}
use dlms_cosem_cpp.Core.{ok, stuck, invalid_tag}
use dlms_cosem_cpp.ByteBuffer.{
  Reader, Writer, ◌>>=◌, ◌>>◌, pure, fail, has_data, read_u8, read_bytes, read_variable_length,
  write_u8, write_bytes, write_variable_length,
}

pub record BerTlv : Type 0 where
  pub tag : ℕ
  pub value : List ℕ

-- `encode(tag, value, len)`; the overload on a vector is the same.
unfoldable pub encode : ℕ → List ℕ → Writer
unfolding write_u8 write_variable_length write_bytes
encode tag value = do
  write_u8 tag
  write_variable_length (length value)
  if ltb 0 (length value) then write_bytes value else (λ b. b)

-- The overloads on the unsigned types.
unfoldable pub encode_u8 : ℕ → ℕ → Writer
unfolding encode
encode_u8 tag v = encode tag (v ∷ [])

unfoldable pub encode_u16 : ℕ → ℕ → Writer
unfolding encode
encode_u16 tag v = encode tag (u8 (v >>> 8) ∷ u8 v ∷ [])

unfoldable pub encode_u32 : ℕ → ℕ → Writer
unfolding encode
encode_u32 tag v = encode tag (u8 (v >>> 24) ∷ u8 (v >>> 16) ∷ u8 (v >>> 8) ∷ u8 v ∷ [])

unfoldable pub encode_context : ℕ → Bool → List ℕ → Writer
unfolding encode
encode_context context constructed value =
    encode (u8 (bit_or (bit_or 0x80 context) (if constructed then 0x20 else 0x00))) value

unfoldable pub read_tlv : Reader BerTlv
unfolding read_u8 read_variable_length read_bytes
read_tlv = do
  tag ← read_u8
  len ← read_variable_length
  value ← read_bytes len
  pure (record { tag = tag; value = value })

unfoldable pub read_value : ℕ → Reader (List ℕ)
unfolding read_tlv
read_value expected = do
  tlv ← read_tlv
  if tlv.tag == expected then pure tlv.value else fail invalid_tag

-- `while (has_data()) { tlv = read_tlv(); … }`: the loop of `read_all` and of both `decode`
-- functions, where `step` is what the body does with an element. Each round takes a byte at least.
unfoldable pub each_tlv {ℓ} : {S : Type ℓ} → (S → BerTlv → S) → ℕ → S → Reader S
unfolding read_tlv
each_tlv step zero s = λ b. elim (has_data b) [ true ↦ (stuck, b) | false ↦ (ok s, b) ]
each_tlv step (suc fuel) s = λ b. elim (has_data b) [
  | true ↦ (read_tlv >>= λ tlv. each_tlv step fuel (step s tlv)) b
  | false ↦ (ok s, b)
]

abbrev pub all_tlvs {ℓ} : {S : Type ℓ} → (S → BerTlv → S) → S → Reader S
all_tlvs step s b = each_tlv step (length b.bytes - b.pos) s b

unfoldable pub read_all : Reader (List BerTlv)
unfolding each_tlv
read_all = all_tlvs (λ result tlv. result ++ (tlv ∷ [])) []
