-- ===== src/Ber/Aare.antt =====
-- The association response of src/dlms/asn1/ber.cpp: what `encode` writes, `decode` reads back.
use dlms_cosem_cpp.Base.{
  ℕ, ◌^◌, ◌<◌, ◌≡◌, refl, ap, ◌∙◌, arith, List, [], ◌∷◌, ◌++◌, length, All, All-append,
}
use dlms_cosem_cpp.Core.{ok}
use dlms_cosem_cpp.ByteBuffer.{ByteBuffer, of_bytes, ◌>>◌, variable_length_bytes, write_u8}
use dlms_cosem_cpp.ByteBuffer.View.{append_three}
use dlms_cosem_cpp.Ber.Tlv.{BerTlv, all_tlvs}
use dlms_cosem_cpp.Ber.Apdu.{
  AareApdu, aare_inner, encode_aare, assign_aare, empty_aare, aare_of, decode_aare,
}
use dlms_cosem_cpp.Ber.RoundTrip.{tlvs_bytes, IsShort, all_tlvs-tlvs_bytes}
use dlms_cosem_cpp.Ber.Fields.{
  field, Appends, Appends-seq, write_field-Appends, field-IsShort, length-field, length-tlvs_append,
  first_tlv, encoded,
}
use mathlib.Core.List.{foldl}

-- The elements of an AARE: the result first.
abbrev aare_fields : AareApdu → List BerTlv
aare_fields a =
    (((record { tag = 0x82; value = a.result ∷ [] } ∷ []) ++ field 0xA1 a.application_context_name)
      ++ field 0x89 a.responding_auth_value)
    ++ field 0xBE a.user_information

write_result-Appends :
    (r : ℕ)
    → Appends
        (do write_u8 0x82; write_u8 1; write_u8 r)
        (record { tag = 0x82; value = r ∷ [] } ∷ [])
unfolding write_u8 variable_length_bytes
write_result-Appends r b = append_three b (0x82 ∷ []) (1 ∷ []) (r ∷ [])

aare_inner-Appends : (a : AareApdu) → Appends (aare_inner a) (aare_fields a)
unfolding aare_inner
aare_inner-Appends a =
    let r : List BerTlv = record { tag = 0x82; value = a.result ∷ [] } ∷ [] in
    let c = field 0xA1 a.application_context_name in
    let v = field 0x89 a.responding_auth_value in
    Appends-seq _ _ ((r ++ c) ++ v) (field 0xBE a.user_information)
      (Appends-seq _ _ (r ++ c) v
        (Appends-seq _ _ r c (write_result-Appends a.result)
          (write_field-Appends 0xA1 a.application_context_name))
        (write_field-Appends 0x89 a.responding_auth_value))
      (write_field-Appends 0xBE a.user_information)

assign_aare-fields :
    (a : AareApdu) → foldl assign_aare empty_aare (aare_fields a) ≡ record a { mechanism_name = [] }
unfolding assign_aare
assign_aare-fields a =
    go a.result a.application_context_name a.responding_auth_value a.user_information
  where
    go :
        (r : ℕ) (c v u : List ℕ)
        → let x : AareApdu = record {
          result = r;
          application_context_name = c;
          responding_auth_value = v;
          mechanism_name = [];
          user_information = u;
        } in
          foldl assign_aare empty_aare (aare_fields x) ≡ x
    go r [] [] [] = refl
    go r [] [] (u ∷ us) = refl
    go r [] (v ∷ vs) [] = refl
    go r [] (v ∷ vs) (u ∷ us) = refl
    go r (c ∷ cs) [] [] = refl
    go r (c ∷ cs) [] (u ∷ us) = refl
    go r (c ∷ cs) (v ∷ vs) [] = refl
    go r (c ∷ cs) (v ∷ vs) (u ∷ us) = refl

abbrev pub aare_contents : AareApdu → List ℕ
aare_contents a = (aare_inner a (of_bytes [])).bytes

aare_contents-tlvs : (a : AareApdu) → aare_contents a ≡ tlvs_bytes (aare_fields a)
aare_contents-tlvs a = ap (λ (b : ByteBuffer). b.bytes) (aare_inner-Appends a (of_bytes []))

aare_fields-IsShort :
    (a : AareApdu) → length (tlvs_bytes (aare_fields a)) < 2 ^ 32 → All IsShort (aare_fields a)
aare_fields-IsShort a h =
    let r : List BerTlv = record { tag = 0x82; value = a.result ∷ [] } ∷ [] in
    let c = field 0xA1 a.application_context_name in
    let v = field 0x89 a.responding_auth_value in
    let u = field 0xBE a.user_information in
    let rcv = length-tlvs_append ((r ++ c) ++ v) u in
    let rc = length-tlvs_append (r ++ c) v in
    let all = length-tlvs_append r c in
    All-append IsShort ((r ++ c) ++ v) u
      (All-append IsShort (r ++ c) v
        (All-append IsShort r c (omega arith, tt)
          (field-IsShort 0xA1 a.application_context_name
            (omega (arith, rcv, rc, all, length-field 0xA1 a.application_context_name))))
        (field-IsShort 0x89 a.responding_auth_value
          (omega (arith, rcv, rc, length-field 0x89 a.responding_auth_value))))
      (field-IsShort 0xBE a.user_information
        (omega (arith, rcv, length-field 0xBE a.user_information)))

-- An AARE comes back without its mechanism name, which is not written, and with all else, whatever
-- follows it, if its contents are shorter than 2 ^ 32 bytes.
pub decode_aare-encode_aare :
    (a : AareApdu) (tail : List ℕ)
    → length (aare_contents a) < 2 ^ 32
    → decode_aare (encode_aare a ++ tail) ≡ ok (record a { mechanism_name = [] })
unfolding decode_aare encode_aare
decode_aare-encode_aare a tail h =
    let t : BerTlv = record { tag = 0x61; value = aare_contents a } in
    let e = aare_contents-tlvs a in
    let fields = aare_fields-IsShort a (rw e at h) in
    ap (λ (xs : List ℕ). decode_aare (xs ++ tail)) (encoded 0x61 (aare_contents a))
    ∙ first_tlv aare_of t tail h
    ∙ ap (λ (xs : List ℕ). (all_tlvs assign_aare empty_aare (of_bytes xs)).0) e
    ∙ all_tlvs-tlvs_bytes assign_aare (aare_fields a) empty_aare fields
    ∙ ap ok (assign_aare-fields a)
