-- ===== src/Ber/Aarq.antt =====
-- The association request of src/dlms/asn1/ber.cpp: what `encode` writes, `decode` reads back.
use dlms_cosem_cpp.Base.{
  ℕ, ◌^◌, ◌<◌, ◌≡◌, refl, ap, ◌∙◌, arith, List, [], ◌∷◌, ◌++◌, length, All, All-append,
}
use dlms_cosem_cpp.Core.{ok}
use dlms_cosem_cpp.ByteBuffer.{ByteBuffer, of_bytes}
use dlms_cosem_cpp.Ber.Tlv.{BerTlv, all_tlvs}
use dlms_cosem_cpp.Ber.Apdu.{
  AarqApdu, aarq_inner, encode_aarq, assign_aarq, empty_aarq, aarq_of, decode_aarq,
}
use dlms_cosem_cpp.Ber.RoundTrip.{tlvs_bytes, IsShort, all_tlvs-tlvs_bytes}
use dlms_cosem_cpp.Ber.Fields.{
  field, Appends, Appends-seq, write_field-Appends, field-IsShort, length-field, length-tlvs_append,
  first_tlv, encoded,
}
use mathlib.Core.List.{foldl}

abbrev aarq_fields : AarqApdu → List BerTlv
aarq_fields a =
    ((field 0xA1 a.application_context_name ++ field 0xA7 a.mechanism_name)
      ++ field 0x88 a.calling_auth_value)
    ++ field 0xBE a.user_information

aarq_inner-Appends : (a : AarqApdu) → Appends (aarq_inner a) (aarq_fields a)
unfolding aarq_inner
aarq_inner-Appends a =
    Appends-seq _ _ _ _
      (Appends-seq _ _ _ _
        (Appends-seq _ _ _ _ (write_field-Appends 0xA1 a.application_context_name)
          (write_field-Appends 0xA7 a.mechanism_name))
        (write_field-Appends 0x88 a.calling_auth_value))
      (write_field-Appends 0xBE a.user_information)

-- Each element goes to its field.
assign_aarq-fields : (a : AarqApdu) → foldl assign_aarq empty_aarq (aarq_fields a) ≡ a
unfolding assign_aarq
assign_aarq-fields a =
    go a.application_context_name a.calling_auth_value a.mechanism_name a.user_information
  where
    go :
        (c v m u : List ℕ)
        → let r : AarqApdu = record {
          application_context_name = c;
          calling_auth_value = v;
          mechanism_name = m;
          user_information = u;
        } in
          foldl assign_aarq empty_aarq (aarq_fields r) ≡ r
    go [] [] [] [] = refl
    go [] [] [] (u ∷ us) = refl
    go [] [] (m ∷ ms) [] = refl
    go [] [] (m ∷ ms) (u ∷ us) = refl
    go [] (v ∷ vs) [] [] = refl
    go [] (v ∷ vs) [] (u ∷ us) = refl
    go [] (v ∷ vs) (m ∷ ms) [] = refl
    go [] (v ∷ vs) (m ∷ ms) (u ∷ us) = refl
    go (c ∷ cs) [] [] [] = refl
    go (c ∷ cs) [] [] (u ∷ us) = refl
    go (c ∷ cs) [] (m ∷ ms) [] = refl
    go (c ∷ cs) [] (m ∷ ms) (u ∷ us) = refl
    go (c ∷ cs) (v ∷ vs) [] [] = refl
    go (c ∷ cs) (v ∷ vs) [] (u ∷ us) = refl
    go (c ∷ cs) (v ∷ vs) (m ∷ ms) [] = refl
    go (c ∷ cs) (v ∷ vs) (m ∷ ms) (u ∷ us) = refl

-- The bytes of the buffer `inner`.
abbrev pub aarq_contents : AarqApdu → List ℕ
aarq_contents a = (aarq_inner a (of_bytes [])).bytes

aarq_contents-tlvs : (a : AarqApdu) → aarq_contents a ≡ tlvs_bytes (aarq_fields a)
aarq_contents-tlvs a = ap (λ (b : ByteBuffer). b.bytes) (aarq_inner-Appends a (of_bytes []))

aarq_fields-IsShort :
    (a : AarqApdu) → length (tlvs_bytes (aarq_fields a)) < 2 ^ 32 → All IsShort (aarq_fields a)
aarq_fields-IsShort a h =
    let c = field 0xA1 a.application_context_name in
    let m = field 0xA7 a.mechanism_name in
    let v = field 0x88 a.calling_auth_value in
    let u = field 0xBE a.user_information in
    let cmv = length-tlvs_append ((c ++ m) ++ v) u in
    let cm = length-tlvs_append (c ++ m) v in
    let all = length-tlvs_append c m in
    All-append IsShort ((c ++ m) ++ v) u
      (All-append IsShort (c ++ m) v
        (All-append IsShort c m
          (field-IsShort 0xA1 a.application_context_name
            (omega (arith, cmv, cm, all, length-field 0xA1 a.application_context_name)))
          (field-IsShort 0xA7 a.mechanism_name
            (omega (arith, cmv, cm, all, length-field 0xA7 a.mechanism_name))))
        (field-IsShort 0x88 a.calling_auth_value
          (omega (arith, cmv, cm, length-field 0x88 a.calling_auth_value))))
      (field-IsShort 0xBE a.user_information
        (omega (arith, cmv, length-field 0xBE a.user_information)))

-- An AARQ comes back with all of its fields, whatever follows it, if its contents are shorter than
-- 2 ^ 32 bytes.
pub decode_aarq-encode_aarq :
    (a : AarqApdu) (tail : List ℕ)
    → length (aarq_contents a) < 2 ^ 32
    → decode_aarq (encode_aarq a ++ tail) ≡ ok a
unfolding decode_aarq encode_aarq
decode_aarq-encode_aarq a tail h =
    let t : BerTlv = record { tag = 0x60; value = aarq_contents a } in
    let e = aarq_contents-tlvs a in
    let fields = aarq_fields-IsShort a (rw e at h) in
    ap (λ (xs : List ℕ). decode_aarq (xs ++ tail)) (encoded 0x60 (aarq_contents a))
    ∙ first_tlv aarq_of t tail h
    ∙ ap (λ (xs : List ℕ). (all_tlvs assign_aarq empty_aarq (of_bytes xs)).0) e
    ∙ all_tlvs-tlvs_bytes assign_aarq (aarq_fields a) empty_aarq fields
    ∙ ap ok (assign_aarq-fields a)
