-- ===== src/Ber/RoundTrip.antt =====
-- What `BerEncoder` writes, `BerDecoder` reads back, and `read_all` ends (src/dlms/asn1/ber.cpp).
use dlms_cosem_cpp.Base.{
  ℕ, zero, suc, ◌^◌, ◌≤◌, ◌<◌, ◌≡◌, sym, ap, ◌∙◌, arith, true, false, List, [], ◌∷◌, ◌++◌, length,
  length-append, append_assoc, append-nil, lt→ltb, le→ltb, All,
}
use dlms_cosem_cpp.Core.{ok}
use dlms_cosem_cpp.ByteBuffer.{
  ByteBuffer, Reader, of_bytes, advance, append, has_data, ◌>>=◌, pure, read_u8, read_bytes,
  read_variable_length, variable_length_bytes,
}
use dlms_cosem_cpp.ByteBuffer.View.{
  Left, Reads, Reads-bind, read_u8-Reads, read_bytes-Reads, Left-length, Left-advance,
  of_bytes-Left, Reads-map, has_data-Left, append-append, append_three,
}
use dlms_cosem_cpp.ByteBuffer.Length.{read_variable_length-Reads}
use dlms_cosem_cpp.Ber.Tlv.{BerTlv, encode, read_tlv, each_tlv, all_tlvs, read_all}
use mathlib.Core.List.{foldl}

-- The bytes of an element, and of a sequence of elements.
abbrev pub tlv_bytes : BerTlv → List ℕ
tlv_bytes t = t.tag ∷ (variable_length_bytes (length t.value) ++ t.value)

abbrev pub tlvs_bytes : List BerTlv → List ℕ
tlvs_bytes [] = []
tlvs_bytes (t ∷ ts) = tlv_bytes t ++ tlvs_bytes ts

-- The reader accepts the length.
abbrev pub IsShort : BerTlv → Type 0
IsShort t = length t.value < 2 ^ 32

pub encode-append :
    (tag : ℕ) (value : List ℕ) (b : ByteBuffer)
    → encode tag value b ≡ append (tlv_bytes (record { tag = tag; value = value })) b
unfolding encode
encode-append tag [] b =
    append-append b (tag ∷ []) (variable_length_bytes 0)
    ∙ ap (λ (t : List ℕ). append (tag ∷ t) b) (sym (append-nil (variable_length_bytes 0)))
encode-append tag (x ∷ xs) b =
    rw (lt→ltb 0 (length (x ∷ xs)) (omega arith))
      (append_three b (tag ∷ []) (variable_length_bytes (length (x ∷ xs))) (x ∷ xs))

pub read_tlv-Reads : (t : BerTlv) → IsShort t → Reads read_tlv (tlv_bytes t) t
unfolding read_tlv
read_tlv-Reads t h =
    let len : List ℕ = variable_length_bytes (length t.value) in
    let value : Reads
        (read_bytes (length t.value) >>= λ v. pure (record { tag = t.tag; value = v })) t.value t =
      Reads-map (read_bytes (length t.value)) (λ (v : List ℕ). record { tag = t.tag; value = v })
        t.value t.value (read_bytes-Reads t.value) in
    Reads-bind read_u8 _ (t.tag ∷ []) (len ++ t.value) t.tag t (read_u8-Reads t.tag) (
      Reads-bind read_variable_length _ len t.value (length t.value) t
        (read_variable_length-Reads (length t.value) h) value)

no_data : (b : ByteBuffer) → Left b [] → has_data b ≡ false
no_data b l = le→ltb b.pos (length b.bytes) (omega (arith, Left-length b [] l))

module _ {ℓ} {S : Type ℓ} (step : S → BerTlv → S) where
  -- One round of the loop.
  abbrev pub round : ℕ → S → Reader S
  round fuel s = read_tlv >>= λ tlv. each_tlv step fuel (step s tlv)

  pub each_tlv-has_data :
      (fuel : ℕ) (s : S) (b : ByteBuffer)
      → has_data b ≡ true
      → each_tlv step (suc fuel) s b ≡ round fuel s b
  unfolding each_tlv
  each_tlv-has_data fuel s b e = rw (e, each_tlv)

  pub each_tlv-at_end :
      (fuel : ℕ) (s : S) (b : ByteBuffer) → has_data b ≡ false → each_tlv step fuel s b ≡ (ok s, b)
  unfolding each_tlv
  each_tlv-at_end zero s b e = rw (e, each_tlv)
  each_tlv-at_end (suc fuel) s b e = rw (e, each_tlv)

  -- The loop over elements that were written one after the other.
  pub each_tlv-tlvs_bytes :
      (ts : List BerTlv) (fuel : ℕ) (s : S) (b : ByteBuffer)
      → All IsShort ts
      → length (tlvs_bytes ts) ≤ fuel
      → Left b (tlvs_bytes ts)
      → (each_tlv step fuel s b).0 ≡ ok (foldl step s ts)
  each_tlv-tlvs_bytes [] fuel s b h hf l = rw (each_tlv-at_end fuel s b (no_data b l))
  each_tlv-tlvs_bytes (t ∷ ts) zero s b h hf l = absurd (omega arith)
  each_tlv-tlvs_bytes (t ∷ ts) (suc fuel) s b h hf l =
      let all = length-append {0} (tlv_bytes t) (tlvs_bytes ts) in
      let some_left = has_data-Left b t.tag _ l in
      let read = read_tlv-Reads t h.0 b (tlvs_bytes ts) l in
      let rest =
        each_tlv-tlvs_bytes ts fuel (step s t) (advance (length (tlv_bytes t)) b) h.1
          (omega (arith, all)) (Left-advance b (tlv_bytes t) (tlvs_bytes ts) l) in
      rw (each_tlv-has_data fuel s b some_left, read) rest

  pub all_tlvs-tlvs_bytes :
      (ts : List BerTlv) (s : S)
      → All IsShort ts
      → (all_tlvs step s (of_bytes (tlvs_bytes ts))).0 ≡ ok (foldl step s ts)
  all_tlvs-tlvs_bytes ts s h =
      each_tlv-tlvs_bytes ts _ s (of_bytes (tlvs_bytes ts)) h (omega arith)
        (of_bytes-Left (tlvs_bytes ts))

-- The concatenation of the encodings of any elements is taken apart into those elements.
pub read_all-tlvs_bytes :
    (ts : List BerTlv) → All IsShort ts → (read_all (of_bytes (tlvs_bytes ts))).0 ≡ ok ts
unfolding read_all
read_all-tlvs_bytes ts h = all_tlvs-tlvs_bytes push ts [] h ∙ ap ok (foldl-push [] ts)
  where
    push : List BerTlv → BerTlv → List BerTlv
    push result tlv = result ++ (tlv ∷ [])

    foldl-push : (acc us : List BerTlv) → foldl push acc us ≡ acc ++ us
    foldl-push acc [] = sym (append-nil acc)
    foldl-push acc (u ∷ us) = foldl-push (push acc u) us ∙ append_assoc acc (u ∷ []) us
