-- ===== src/Ber/Fields.antt =====
-- The optional fields of the APDUs of src/dlms/asn1/ber.cpp as elements.
use dlms_cosem_cpp.Base.{
  ℕ, ◌+◌, ◌^◌, ◌≤◌, ◌<◌, ◌≡◌, refl, sym, ap, ◌∙◌, arith, List, [], ◌∷◌, ◌++◌, length, length-append,
  append_assoc, append-nil, All, is_empty, if◌then◌else◌,
}
use dlms_cosem_cpp.Core.{Result}
use dlms_cosem_cpp.ByteBuffer.{
  ByteBuffer, Reader, of_bytes, advance, append, ◌>>=◌, resume, variable_length_bytes, write_u8,
  write_variable_length, write_bytes,
}
use dlms_cosem_cpp.ByteBuffer.View.{of_bytes-Left, append-append, append_three}
use dlms_cosem_cpp.Ber.Tlv.{BerTlv, encode, read_tlv}
use dlms_cosem_cpp.Ber.Apdu.{write_field}
use dlms_cosem_cpp.Ber.RoundTrip.{tlv_bytes, tlvs_bytes, IsShort, encode-append, read_tlv-Reads}

-- The element that a non-empty field makes.
abbrev pub field : ℕ → List ℕ → List BerTlv
field tag xs = if is_empty xs then [] else record { tag = tag; value = xs } ∷ []

pub tlvs_bytes-append :
    (ts us : List BerTlv) → tlvs_bytes (ts ++ us) ≡ tlvs_bytes ts ++ tlvs_bytes us
tlvs_bytes-append [] us = refl
tlvs_bytes-append (t ∷ ts) us =
    ap (λ (r : List ℕ). tlv_bytes t ++ r) (tlvs_bytes-append ts us)
    ∙ sym (append_assoc (tlv_bytes t) (tlvs_bytes ts) (tlvs_bytes us))

-- `w` appends the elements `ts`.
abbrev pub Appends : (ByteBuffer → ByteBuffer) → List BerTlv → Type 0
Appends w ts = (b : ByteBuffer) → w b ≡ append (tlvs_bytes ts) b

pub Appends-seq :
    (v w : ByteBuffer → ByteBuffer) (ts us : List BerTlv)
    → Appends v ts
    → Appends w us
    → Appends (λ b. w (v b)) (ts ++ us)
Appends-seq v w ts us hv hw b =
    hw (v b)
    ∙ ap (append (tlvs_bytes us)) (hv b)
    ∙ append-append b (tlvs_bytes ts) (tlvs_bytes us)
    ∙ ap (λ (t : List ℕ). append t b) (sym (tlvs_bytes-append ts us))

pub write_field-Appends : (tag : ℕ) (xs : List ℕ) → Appends (write_field tag xs) (field tag xs)
unfolding write_u8 write_variable_length write_bytes
write_field-Appends tag [] b =
    ap (λ (t : List ℕ). record b { bytes = t }) (sym (append-nil b.bytes))
write_field-Appends tag (x ∷ xs) b =
    append_three b (tag ∷ []) (variable_length_bytes (length (x ∷ xs))) (x ∷ xs)
    ∙ ap (λ (t : List ℕ). append t b)
        (sym (append-nil (tlv_bytes (record { tag = tag; value = x ∷ xs }))))

-- A field that fits into the contents is short enough for the reader.
pub field-IsShort : (tag : ℕ) (xs : List ℕ) → length xs < 2 ^ 32 → All IsShort (field tag xs)
field-IsShort tag [] h = tt
field-IsShort tag (x ∷ xs) h = (h, tt)

pub length-field : (tag : ℕ) (xs : List ℕ) → length xs ≤ length (tlvs_bytes (field tag xs))
length-field tag [] = omega arith
length-field tag (x ∷ xs) = omega (
  arith,
  length-append {0} (tlv_bytes (record { tag = tag; value = x ∷ xs })) [],
  length-append {0} (variable_length_bytes (length (x ∷ xs))) (x ∷ xs),
)

pub length-tlvs_append :
    (ts us : List BerTlv)
    → length (tlvs_bytes (ts ++ us)) ≡ length (tlvs_bytes ts) + length (tlvs_bytes us)
length-tlvs_append ts us =
    ap length (tlvs_bytes-append ts us) ∙ length-append (tlvs_bytes ts) (tlvs_bytes us)

-- A decoder that looks at the first element, on bytes that begin with an element.
pub first_tlv {ℓ} :
    {A : Type ℓ} (of : BerTlv → Reader A) (t : BerTlv) (tail : List ℕ)
    → IsShort t
    → ((read_tlv >>= of) (of_bytes (tlv_bytes t ++ tail))).0
      ≡ (of t (advance (length (tlv_bytes t)) (of_bytes (tlv_bytes t ++ tail)))).0
first_tlv of t tail h =
    ap (λ (r : Result BerTlv × ByteBuffer). (resume r.0 r.1 of).0)
      (read_tlv-Reads t h (of_bytes (tlv_bytes t ++ tail)) tail (of_bytes-Left _))

pub encoded :
    (tag : ℕ) (xs : List ℕ)
    → (encode tag xs (of_bytes [])).bytes ≡ tlv_bytes (record { tag = tag; value = xs })
encoded tag xs = ap (λ (b : ByteBuffer). b.bytes) (encode-append tag xs (of_bytes []))
