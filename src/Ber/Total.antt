-- ===== src/Ber/Total.antt =====
-- The loops over elements of src/dlms/asn1/ber.cpp come to an end on all bytes.
use dlms_cosem_cpp.Base.{
  ℕ, zero, suc, ◌-◌, ◌≤◌, ◌≡◌, ◌≢◌, refl, ap, arith, Bool, true, false, List, [], ◌∷◌, ◌++◌, length,
  le→ltb, Bool-cases, inl, inr, ◌==◌, if◌then◌else◌,
}
use dlms_cosem_cpp.Core.{Result, ok, stuck, invalid_tag}
use dlms_cosem_cpp.ByteBuffer.{
  ByteBuffer, Reader, of_bytes, has_data, ◌>>=◌, pure, fail, read_u8, read_bytes,
  read_variable_length,
}
use dlms_cosem_cpp.ByteBuffer.Bounds.{
  InsideAt, StaysInside, bind-InsideAt, bind-StaysInside, bind-pos, pure-StaysInside,
  fail-StaysInside, read_u8-StaysInside, read_u8-moves, read_bytes-StaysInside,
  read_variable_length-StaysInside,
}
use dlms_cosem_cpp.Ber.Tlv.{BerTlv, read_tlv, each_tlv, all_tlvs, read_all}
use dlms_cosem_cpp.Ber.Apdu.{
  assign_aarq, assign_aare, empty_aarq, empty_aare, aarq_of, aare_of, decode_aarq, decode_aare,
}
use dlms_cosem_cpp.Ber.RoundTrip.{round, each_tlv-has_data, each_tlv-at_end}

-- What `read_tlv` does behind the tag.
abbrev after_tag : ℕ → Reader BerTlv
after_tag tag = do
  len ← read_variable_length
  value ← read_bytes len
  pure (record { tag = tag; value = value })

after_tag-StaysInside : (tag : ℕ) → StaysInside (after_tag tag)
after_tag-StaysInside tag =
    bind-StaysInside read_variable_length _ read_variable_length-StaysInside λ len.
      bind-StaysInside (read_bytes len) _ (read_bytes-StaysInside len) λ value. pure-StaysInside _

pub read_tlv-StaysInside : StaysInside read_tlv
unfolding read_tlv
read_tlv-StaysInside = bind-StaysInside read_u8 after_tag read_u8-StaysInside after_tag-StaysInside

-- An element that was read took one byte at least.
read_tlv-moves :
    (b : ByteBuffer) (t : BerTlv)
    → b.pos ≤ length b.bytes
    → (read_tlv b).0 ≡ ok t
    → suc b.pos ≤ (read_tlv b).1.pos
unfolding read_tlv
read_tlv-moves b t h =
    let first = read_u8-StaysInside b h in
    bind-pos read_u8 after_tag b (suc b.pos)
      (λ tag e.
        let rest =
          after_tag-StaysInside tag (read_u8 b).1 (omega (arith, first.3, ap length first.1)) in
        omega (arith, read_u8-moves b tag e, rest.2))
      t

module _ {ℓ} {S : Type ℓ} (step : S → BerTlv → S) where
  each_tlv-InsideAt :
      (fuel : ℕ) (s : S) (b : ByteBuffer)
      → b.pos ≤ length b.bytes
      → length b.bytes - b.pos ≤ fuel
      → InsideAt (each_tlv step fuel s) b
  each_tlv-InsideAt zero s b h hf =
      rw (each_tlv-at_end step zero s b (le→ltb b.pos (length b.bytes) (omega arith)))
        (pure-StaysInside s b h)
  each_tlv-InsideAt (suc fuel) s b h hf =
      let first = read_tlv-StaysInside b h in
      let c = (read_tlv b).1 in
      let size : length c.bytes ≡ length b.bytes = ap length first.1 in
      let more : InsideAt (round step fuel s) b = bind-InsideAt read_tlv _ b first λ t e.
        each_tlv-InsideAt fuel (step s t) c (omega (arith, size, first.3))
          (omega (arith, size, read_tlv-moves b t h e)) in
      elim (Bool-cases (has_data b)) [
        | inl e ↦ rw (each_tlv-has_data step fuel s b e) more
        | inr e ↦ rw (each_tlv-at_end step (suc fuel) s b e) (pure-StaysInside s b h)
      ]

  pub all_tlvs-InsideAt :
      (s : S) (b : ByteBuffer) → b.pos ≤ length b.bytes → InsideAt (all_tlvs step s) b
  all_tlvs-InsideAt s b h = each_tlv-InsideAt (length b.bytes - b.pos) s b h (omega arith)

-- What a `decode` function does with the first element, its contents decoded to `r`.
first_of-StaysInside {ℓ} :
    {A : Type ℓ} (t : Bool) (r : Result A)
    → r ≢ stuck
    → StaysInside (if t then (λ b. (r, b)) else fail invalid_tag)
first_of-StaysInside true r ends b h = (ends, refl, omega arith, h)
first_of-StaysInside false r ends b h = fail-StaysInside invalid_tag b h

-- `read_all` and both `decode` functions end on every input, and `read_all` stays inside its buffer.
pub decoders_total :
    (d : List ℕ)
    → ((read_all (of_bytes d)).0 ≢ stuck)
      × ((read_all (of_bytes d)).1.pos ≤ length d)
      × (decode_aarq d ≢ stuck)
      × (decode_aare d ≢ stuck)
unfolding read_all decode_aarq decode_aare
decoders_total d =
    let b = of_bytes d in
    let all = all_tlvs-InsideAt (λ result tlv. result ++ (tlv ∷ [])) [] b (omega arith) in
    let aarq = bind-StaysInside read_tlv aarq_of read_tlv-StaysInside λ tlv.
      first_of-StaysInside (tlv.tag == 0x60) _
        (all_tlvs-InsideAt assign_aarq empty_aarq (of_bytes tlv.value) (omega arith)).0 in
    let aare = bind-StaysInside read_tlv aare_of read_tlv-StaysInside λ tlv.
      first_of-StaysInside (tlv.tag == 0x61) _
        (all_tlvs-InsideAt assign_aare empty_aare (of_bytes tlv.value) (omega arith)).0 in
    (all.0, all.3, (aarq b (omega arith)).0, (aare b (omega arith)).0)
