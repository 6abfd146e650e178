-- ===== src/Axdr/RoundTrip.antt =====
-- What `AxdEncoder` writes, `AxdDecoder` reads back (src/dlms/axdr).
use dlms_cosem_cpp.Base.{
  ℕ, zero, suc, ◌+◌, ◌*◌, ◌^◌, ◌-◌, ◌<◌, ◌≡◌, sym, ap, ◌∙◌, arith, Bool, true, false, List, [], ◌∷◌,
  ◌++◌, length, length-append, append-nil, drop-append, ◌==◌, if◌then◌else◌,
}
use mathlib.Core.Path.{subst}
use dlms_cosem_cpp.Base.Int.{
  ℤ, IsSigned, to_unsigned, to_signed, to_signed-to_unsigned, to_unsigned-lt,
}
use dlms_cosem_cpp.Core.{ok}
use dlms_cosem_cpp.ByteBuffer.{
  ByteBuffer, Reader, ◌>>=◌, pure, read_u8, read_u16, read_u32, read_u64, read_i8, read_i16,
  read_i32, read_i64, read_bytes, read_variable_length, u16_bytes, u32_bytes, u64_bytes,
  variable_length_bytes,
}
use dlms_cosem_cpp.ByteBuffer.View.{
  Left, Reads, Reads-bind, pure-Reads, read_u8-Reads, read_bytes-Reads, Left-length, Reads-map,
  has_data-Left,
}
use dlms_cosem_cpp.ByteBuffer.RoundTrip.{read_u16-Reads, read_u32-Reads, read_u64-Reads}
use dlms_cosem_cpp.ByteBuffer.Length.{read_variable_length-Reads}
use dlms_cosem_cpp.Axdr.Value.{
  DlmsValue, DlmsValues, null, bool, int8, int16, int32, int64, uint8, uint16, uint32, uint64,
  float, double, octets, string, array, structure, nil, cons, count, get_tag, IsEncodable,
  AreEncodable, null_fits, bool_fits, int8_fits, int16_fits, int32_fits, int64_fits, uint8_fits,
  uint16_fits, uint32_fits, uint64_fits, float_fits, double_fits, octets_fit, string_fits,
  array_fits, structure_fits, nil_fits, cons_fits,
}
use dlms_cosem_cpp.Axdr.Encoder.{encode_value}
use dlms_cosem_cpp.Axdr.Bytes.{payload, items_bytes, value_bytes, encode_value-bytes}
use dlms_cosem_cpp.Axdr.Decoder.{
  decode_sized, decode_by_tag, decode_one, decode_items, decode, decode_items-has_data,
}

-- A signed read is the unsigned one and a cast.
read_signed-Reads :
    (m : ℕ) (read : Reader ℕ) (print : ℕ → List ℕ)
    → ((n : ℕ) → n < m → Reads read (print n) n)
    → (z : ℤ) → IsSigned m z
    → Reads (read >>= λ r. pure (to_signed m r)) (print (to_unsigned m z)) z
read_signed-Reads m read print h z hz = rw (to_signed-to_unsigned m z hz) at (
    Reads-map read (to_signed m) (print (to_unsigned m z)) (to_unsigned m z)
      (h (to_unsigned m z) (to_unsigned-lt m z hz)))

read_i8-Reads : (z : ℤ) → IsSigned (2 ^ 8) z → Reads read_i8 (to_unsigned (2 ^ 8) z ∷ []) z
unfolding read_i8
read_i8-Reads = read_signed-Reads (2 ^ 8) read_u8 (λ n. n ∷ []) λ n h. read_u8-Reads n

read_i16-Reads :
    (z : ℤ) → IsSigned (2 ^ 16) z → Reads read_i16 (u16_bytes (to_unsigned (2 ^ 16) z)) z
unfolding read_i16
read_i16-Reads = read_signed-Reads (2 ^ 16) read_u16 u16_bytes read_u16-Reads

read_i32-Reads :
    (z : ℤ) → IsSigned (2 ^ 32) z → Reads read_i32 (u32_bytes (to_unsigned (2 ^ 32) z)) z
unfolding read_i32
read_i32-Reads = read_signed-Reads (2 ^ 32) read_u32 u32_bytes read_u32-Reads

read_i64-Reads :
    (z : ℤ) → IsSigned (2 ^ 64) z → Reads read_i64 (u64_bytes (to_unsigned (2 ^ 64) z)) z
unfolding read_i64
read_i64-Reads = read_signed-Reads (2 ^ 64) read_u64 u64_bytes read_u64-Reads

abbrev read_bool : Reader DlmsValue
read_bool = read_u8 >>= λ v. pure (bool (if v == 0 then false else true))

bool-Reads : (b : Bool) → Reads read_bool ((if b then 1 else 0) ∷ []) (bool b)
bool-Reads true =
    Reads-map read_u8 (λ (v : ℕ). bool (if v == 0 then false else true)) (1 ∷ []) 1
      (read_u8-Reads 1)
bool-Reads false =
    Reads-map read_u8 (λ (v : ℕ). bool (if v == 0 then false else true)) (0 ∷ []) 0
      (read_u8-Reads 0)

decode_sized-Reads :
    (xs : List ℕ)
    → length xs < 2 ^ 32
    → Reads decode_sized (variable_length_bytes (length xs) ++ xs) xs
unfolding decode_sized
decode_sized-Reads xs h =
    Reads-bind read_variable_length read_bytes (variable_length_bytes (length xs)) xs (length xs) xs
      (read_variable_length-Reads (length xs) h) (read_bytes-Reads xs)

fixed-Reads : (n : ℕ) (xs : List ℕ) → length xs ≡ n → Reads (read_bytes n) xs xs
fixed-Reads n xs e = subst (λ (k : ℕ). Reads (read_bytes k) xs xs) e (read_bytes-Reads xs)

-- A list of items behind its count.
counted-Reads :
    (items : ℕ → Reader DlmsValues) (g : DlmsValues → DlmsValue) (vs : DlmsValues)
    → count vs < 2 ^ 32
    → Reads (items (count vs)) (items_bytes vs) vs
    → Reads
        (read_variable_length >>= λ n. items n >>= λ ws. pure (g ws))
        (variable_length_bytes (count vs) ++ items_bytes vs)
        (g vs)
counted-Reads items g vs fits h =
    Reads-bind read_variable_length (λ n. items n >>= λ ws. pure (g ws))
      (variable_length_bytes (count vs)) (items_bytes vs) (count vs) (g vs)
      (read_variable_length-Reads (count vs) fits)
      (Reads-map (items (count vs)) g (items_bytes vs) vs h)

tagged-Reads :
    (f : ℕ) (v : DlmsValue)
    → Reads (decode_by_tag (decode_items f) (get_tag v)) (payload v) v
    → Reads (decode_one (suc f)) (value_bytes v) v
unfolding decode_one
tagged-Reads f v h =
    Reads-bind read_u8 (decode_by_tag (decode_items f)) (get_tag v ∷ []) (payload v) (get_tag v) v
      (read_u8-Reads (get_tag v)) h

no_items-Reads : (f : ℕ) → Reads (decode_items (suc f) 0) [] nil
unfolding decode_one
no_items-Reads f = pure-Reads nil

mutual
  unfolding payload get_tag decode_by_tag

  decode_one-Reads :
      (f : ℕ) (v : DlmsValue)
      → IsEncodable v
      → 2 * length (value_bytes v) < f
      → Reads (decode_one f) (value_bytes v) v
  decode_one-Reads zero v fits h = absurd (omega arith)
  decode_one-Reads (suc f) v null_fits h = tagged-Reads f null (pure-Reads null)
  decode_one-Reads (suc f) v (bool_fits b) h = tagged-Reads f (bool b) (bool-Reads b)
  decode_one-Reads (suc f) v (int8_fits z hz) h =
      tagged-Reads f (int8 z) (Reads-map read_i8 int8 (payload (int8 z)) z (read_i8-Reads z hz))
  decode_one-Reads (suc f) v (int16_fits z hz) h =
      tagged-Reads f (int16 z)
        (Reads-map read_i16 int16 (payload (int16 z)) z (read_i16-Reads z hz))
  decode_one-Reads (suc f) v (int32_fits z hz) h =
      tagged-Reads f (int32 z)
        (Reads-map read_i32 int32 (payload (int32 z)) z (read_i32-Reads z hz))
  decode_one-Reads (suc f) v (int64_fits z hz) h =
      tagged-Reads f (int64 z)
        (Reads-map read_i64 int64 (payload (int64 z)) z (read_i64-Reads z hz))
  decode_one-Reads (suc f) v (uint8_fits n hn) h =
      tagged-Reads f (uint8 n) (Reads-map read_u8 uint8 (payload (uint8 n)) n (read_u8-Reads n))
  decode_one-Reads (suc f) v (uint16_fits n hn) h =
      tagged-Reads f (uint16 n)
        (Reads-map read_u16 uint16 (payload (uint16 n)) n (read_u16-Reads n hn))
  decode_one-Reads (suc f) v (uint32_fits n hn) h =
      tagged-Reads f (uint32 n)
        (Reads-map read_u32 uint32 (payload (uint32 n)) n (read_u32-Reads n hn))
  decode_one-Reads (suc f) v (uint64_fits n hn) h =
      tagged-Reads f (uint64 n)
        (Reads-map read_u64 uint64 (payload (uint64 n)) n (read_u64-Reads n hn))
  decode_one-Reads (suc f) v (float_fits xs e) h =
      tagged-Reads f (float xs) (Reads-map (read_bytes 4) float xs xs (fixed-Reads 4 xs e))
  decode_one-Reads (suc f) v (double_fits xs e) h =
      tagged-Reads f (double xs) (Reads-map (read_bytes 8) double xs xs (fixed-Reads 8 xs e))
  decode_one-Reads (suc f) v (octets_fit xs e) h =
      tagged-Reads f (octets xs)
        (Reads-map decode_sized octets (payload (octets xs)) xs (decode_sized-Reads xs e))
  decode_one-Reads (suc f) v (string_fits xs e) h =
      tagged-Reads f (string xs)
        (Reads-map decode_sized string (payload (string xs)) xs (decode_sized-Reads xs e))
  decode_one-Reads (suc f) v (array_fits vs e fit) h = tagged-Reads f (array vs) (
      counted-Reads (decode_items f) array vs e (
        decode_items-Reads f vs fit
          (omega (arith, length-append {0} (variable_length_bytes (count vs)) (items_bytes vs)))))
  decode_one-Reads (suc f) v (structure_fits vs e fit) h = tagged-Reads f (structure vs) (
      counted-Reads (decode_items f) structure vs e (
        decode_items-Reads f vs fit
          (omega (arith, length-append {0} (variable_length_bytes (count vs)) (items_bytes vs)))))

  decode_items-Reads :
      (f : ℕ) (vs : DlmsValues)
      → AreEncodable vs
      → 2 * length (items_bytes vs) + 1 < f
      → Reads (decode_items f (count vs)) (items_bytes vs) vs
  decode_items-Reads zero vs fits h = absurd (omega arith)
  decode_items-Reads (suc f) vs nil_fits h = no_items-Reads f
  decode_items-Reads (suc f) vs (cons_fits v ws fv fws) h =
      let all = length-append {0} (value_bytes v) (items_bytes ws) in
      λ b tail l.
        decode_items-has_data f (count ws) b (has_data-Left b _ _ l)
        ∙ Reads-bind (decode_one f) (λ w. decode_items f (count ws) >>= λ us. pure (cons w us))
            (value_bytes v) (items_bytes ws) v (cons v ws)
            (decode_one-Reads f v fv (omega (arith, all)))
            (Reads-map (decode_items f (count ws)) (cons v) (items_bytes ws) ws
              (decode_items-Reads f ws fws (omega (arith, all))))
            b tail l

-- A value that was written comes back from any buffer whose unread bytes begin with it, and the
-- position moves behind it.
decode-Reads : (v : DlmsValue) → IsEncodable v → Reads decode (value_bytes v) v
unfolding decode
decode-Reads v fits b tail l =
    let size = Left-length b (value_bytes v ++ tail) l in
    let all = length-append {0} (value_bytes v) tail in
    decode_one-Reads (2 * (length b.bytes - b.pos) + 1) v fits (omega (arith, size, all)) b tail l

-- Encoding a value behind anything and decoding from there gives the value, with all of its bytes
-- read.
pub decode-encode_value :
    (v : DlmsValue) (front : List ℕ)
    → IsEncodable v
    → let b = encode_value v (record { bytes = front; pos = length front }) in
      decode b ≡ (ok v, record b { pos = length b.bytes })
decode-encode_value v front fits =
    let xs = value_bytes v in
    let b : ByteBuffer = record { bytes = front ++ xs; pos = length front } in
    let start : Left b (xs ++ []) =
      (omega (arith, length-append {0} front xs), drop-append front xs ∙ sym (append-nil xs)) in
    let whole : decode b ≡ (ok v, record b { pos = length b.bytes }) =
      decode-Reads v fits b [] start
      ∙ ap (λ (t : ℕ). (ok v, record b { pos = t })) (sym (length-append front xs)) in
    subst (λ (c : ByteBuffer). decode c ≡ (ok v, record c { pos = length c.bytes }))
      (sym (encode_value-bytes v (record { bytes = front; pos = length front }))) whole
