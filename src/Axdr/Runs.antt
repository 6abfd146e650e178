-- ===== src/Axdr/Runs.antt =====
-- Runs of src/dlms/axdr on concrete values.
use dlms_cosem_cpp.Base.{◌≡◌, ◌≢◌, ◌≤◌, ◌<◌, refl, arith, [], ◌∷◌, length}
use dlms_cosem_cpp.Base.Int.{negsuc}
use dlms_cosem_cpp.Core.{ok, stuck}
use dlms_cosem_cpp.ByteBuffer.{ByteBuffer, of_bytes}
use dlms_cosem_cpp.Axdr.Value.{
  DlmsValue, null, int16, uint32, octets, array, structure, nil, cons, IsEncodable, int16_fits,
  uint32_fits, null_fits, octets_fit, array_fits, structure_fits, nil_fits, cons_fits,
}
use dlms_cosem_cpp.Axdr.Encoder.{encode_value}
use dlms_cosem_cpp.Axdr.Decoder.{decode}
use dlms_cosem_cpp.Axdr.RoundTrip.{decode-encode_value}
use dlms_cosem_cpp.Axdr.Total.{decode_total, decode-moves}

-- A structure of a signed number, an array of two and an octet string.
abbrev reading : DlmsValue
reading = structure (
    cons (int16 (negsuc 1))
      (cons (array (cons (uint32 70000) (cons null nil))) (cons (octets (1 ∷ (2 ∷ []))) nil)))

reading-IsEncodable : IsEncodable reading
reading-IsEncodable = structure_fits _ (omega arith) (
    cons_fits _ _ (int16_fits (negsuc 1) (omega arith)) (
      cons_fits _ _
        (array_fits _ (omega arith)
          (cons_fits _ _ (uint32_fits 70000 (omega arith)) (cons_fits _ _ null_fits nil_fits)))
        (cons_fits _ _ (octets_fit (1 ∷ (2 ∷ [])) (omega arith)) nil_fits)))

-- The buffer behind one byte that is there already.
abbrev written : ByteBuffer
written = encode_value reading (record { bytes = 0xFF ∷ []; pos = 1 })

decode-encode_value_example :
    decode written ≡ (ok reading, record written { pos = length written.bytes })
decode-encode_value_example = decode-encode_value reading (0xFF ∷ []) reading-IsEncodable

-- An array that says three items and holds one and a half.
abbrev cut_short : ByteBuffer
cut_short = of_bytes (1 ∷ (3 ∷ (17 ∷ (5 ∷ (18 ∷ (1 ∷ []))))))

decode_total_example :
    ((decode cut_short).0 ≢ stuck)
    × ((decode cut_short).1.bytes ≡ cut_short.bytes)
    × ((decode cut_short).1.pos ≤ length cut_short.bytes)
decode_total_example = decode_total cut_short (omega arith)

abbrev one_null : ByteBuffer
one_null = of_bytes (0 ∷ [])

one_null_lem : (decode one_null).0 ≡ ok null
unfolding decode
one_null_lem = refl

decode-moves_example : 0 < (decode one_null).1.pos
decode-moves_example = decode-moves one_null null (omega arith) one_null_lem
