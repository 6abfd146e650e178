-- ===== src/Axdr/Total.antt =====
-- `decode` of src/dlms/axdr/decoder.cpp comes to an end on every buffer.
use dlms_cosem_cpp.Base.{
  ℕ, zero, suc, ◌+◌, ◌-◌, ◌*◌, ◌≤◌, ◌<◌, ◌≡◌, ◌≢◌, ap, arith, Bool, true, false, length, ◌==◌,
  if◌then◌else◌, Bool-cases, inl, inr,
}
use dlms_cosem_cpp.Core.{ok, stuck, invalid_tag}
use dlms_cosem_cpp.Core.Tag
use dlms_cosem_cpp.ByteBuffer.{
  ByteBuffer, Reader, ◌>>=◌, pure, has_data, read_u8, read_variable_length, read_i8, read_i16,
  read_i32, read_i64,
}
use dlms_cosem_cpp.ByteBuffer.Bounds.{
  InsideAt, StaysInside, bind-InsideAt, bind-StaysInside, pure-StaysInside, fail-StaysInside,
  read_u8-StaysInside, read_u16-StaysInside, read_u32-StaysInside, read_u64-StaysInside,
  read_bytes-StaysInside, read_variable_length-StaysInside, read_u8-moves, bind-pos,
}
use dlms_cosem_cpp.Axdr.Value.{DlmsValue, DlmsValues, array, structure, nil, cons}
use dlms_cosem_cpp.Axdr.Decoder.{
  decode_sized, decode_by_tag, decode_one, decode_items, decode, one_more, decode_items-has_data,
  decode_items-at_end,
}

map-StaysInside {ℓ κ} :
    {A : Type ℓ} {B : Type κ} (m : Reader A) (f : A → B)
    → StaysInside m
    → StaysInside (m >>= λ a. pure (f a))
map-StaysInside m f h = bind-StaysInside m _ h λ a. pure-StaysInside (f a)

decode_sized-StaysInside : StaysInside decode_sized
unfolding decode_sized
decode_sized-StaysInside =
    bind-StaysInside read_variable_length _ read_variable_length-StaysInside read_bytes-StaysInside

read_i8-StaysInside : StaysInside read_i8
unfolding read_i8
read_i8-StaysInside = map-StaysInside _ _ read_u8-StaysInside

read_i16-StaysInside : StaysInside read_i16
unfolding read_i16
read_i16-StaysInside = map-StaysInside _ _ read_u16-StaysInside

read_i32-StaysInside : StaysInside read_i32
unfolding read_i32
read_i32-StaysInside = map-StaysInside _ _ read_u32-StaysInside

read_i64-StaysInside : StaysInside read_i64
unfolding read_i64
read_i64-StaysInside = map-StaysInside _ _ read_u64-StaysInside

-- The items are read from `c` on, or further behind.
abbrev ItemsInside : (ℕ → Reader DlmsValues) → ByteBuffer → Type 0
ItemsInside items c =
    (n : ℕ) (d : ByteBuffer)
    → d.bytes ≡ c.bytes
    → c.pos ≤ d.pos
    → d.pos ≤ length d.bytes
    → InsideAt (items n) d

if-InsideAt {ℓ} :
    {A : Type ℓ} (t : Bool) (m n : Reader A) (b : ByteBuffer)
    → InsideAt m b
    → InsideAt n b
    → InsideAt (if t then m else n) b
if-InsideAt true m n b hm hn = hm
if-InsideAt false m n b hm hn = hn

module _ (items : ℕ → Reader DlmsValues) (c : ByteBuffer) (inside : c.pos ≤ length c.bytes)
    (rest : ItemsInside items c) where
  decode_list-InsideAt :
      (g : DlmsValues → DlmsValue)
      → InsideAt (read_variable_length >>= λ n. items n >>= λ vs. pure (g vs)) c
  decode_list-InsideAt g =
      let first = read_variable_length-StaysInside c inside in
      bind-InsideAt read_variable_length _ c first λ n e.
        let d = (read_variable_length c).1 in
        let there = rest n d first.1 first.2 (omega (arith, first.3, ap length first.1)) in
        bind-InsideAt (items n) _ d there
          λ vs e'. pure-StaysInside (g vs) (items n d).1 (omega (arith, there.3, ap length there.1))

  decode_by_tag-InsideAt : (tag : ℕ) → InsideAt (decode_by_tag items tag) c
  unfolding decode_by_tag
  decode_by_tag-InsideAt tag = if-InsideAt (tag == Tag.null) _ _ c (pure-StaysInside _ c inside) (
      if-InsideAt (tag == Tag.boolean) _ _ c (map-StaysInside _ _ read_u8-StaysInside c inside) (
        if-InsideAt (tag == Tag.integer) _ _ c (map-StaysInside _ _ read_i8-StaysInside c inside) (
          if-InsideAt (tag == Tag.long) _ _ c (map-StaysInside _ _ read_i16-StaysInside c inside) (
            if-InsideAt (tag == Tag.double_long) _ _ c
              (map-StaysInside _ _ read_i32-StaysInside c inside)
              (if-InsideAt (tag == Tag.long64) _ _ c
                (map-StaysInside _ _ read_i64-StaysInside c inside)
                (if-InsideAt (tag == Tag.unsigned_integer) _ _ c
                  (map-StaysInside _ _ read_u8-StaysInside c inside)
                  (if-InsideAt (tag == Tag.unsigned_long) _ _ c
                    (map-StaysInside _ _ read_u16-StaysInside c inside)
                    (if-InsideAt (tag == Tag.double_long_unsigned) _ _ c
                      (map-StaysInside _ _ read_u32-StaysInside c inside)
                      (if-InsideAt (tag == Tag.unsigned_long64) _ _ c
                        (map-StaysInside _ _ read_u64-StaysInside c inside)
                        (if-InsideAt (tag == Tag.float32) _ _ c
                          (map-StaysInside _ _ (read_bytes-StaysInside 4) c inside)
                          (if-InsideAt (tag == Tag.float64) _ _ c
                            (map-StaysInside _ _ (read_bytes-StaysInside 8) c inside)
                            (if-InsideAt (tag == Tag.octet_string) _ _ c
                              (map-StaysInside _ _ decode_sized-StaysInside c inside)
                              (if-InsideAt (tag == Tag.bit_string) _ _ c
                                (map-StaysInside _ _ decode_sized-StaysInside c inside)
                                (if-InsideAt (tag == Tag.visible_string) _ _ c
                                  (map-StaysInside _ _ decode_sized-StaysInside c inside)
                                  (if-InsideAt (tag == Tag.utf8_string) _ _ c
                                    (map-StaysInside _ _ decode_sized-StaysInside c inside)
                                    (if-InsideAt (tag == Tag.enum) _ _ c
                                      (map-StaysInside _ _ read_u8-StaysInside c inside)
                                      (if-InsideAt (tag == Tag.date) _ _ c
                                        (map-StaysInside _ _ (read_bytes-StaysInside 5) c inside)
                                        (if-InsideAt (tag == Tag.time) _ _ c
                                          (map-StaysInside _ _ (read_bytes-StaysInside 4) c inside)
                                          (if-InsideAt (tag == Tag.date_time) _ _ c
                                            (map-StaysInside _ _ (read_bytes-StaysInside 12) c
                                              inside)
                                            (if-InsideAt (tag == Tag.array) _ _ c
                                              (decode_list-InsideAt array)
                                              (if-InsideAt (tag == Tag.structure) _ _ c
                                                (decode_list-InsideAt structure)
                                                (if-InsideAt (tag == Tag.bcd) _ _ c
                                                  (map-StaysInside _ _ decode_sized-StaysInside c
                                                    inside)
                                                  (if-InsideAt (tag == Tag.compact_array) _ _ c
                                                    (pure-StaysInside _ c inside)
                                                    (if-InsideAt (tag == Tag.dont_care) _ _ c
                                                      (pure-StaysInside _ c inside)
                                                      (fail-StaysInside invalid_tag c
                                                        inside)))))))))))))))))))))))))

-- What `decode_one` promises beside: a value was made from one byte at least.
abbrev Progress : ℕ → ByteBuffer → Type 0
Progress f b = (v : DlmsValue) → (decode_one f b).0 ≡ ok v → b.pos < (decode_one f b).1.pos

mutual
  unfolding decode_one

  decode_one-InsideAt :
      (f : ℕ) (b : ByteBuffer)
      → b.pos ≤ length b.bytes
      → 2 * (length b.bytes - b.pos) < f
      → InsideAt (decode_one f) b × Progress f b
  decode_one-InsideAt zero b h hf = absurd (omega arith)
  decode_one-InsideAt (suc f) b h hf =
      let first = read_u8-StaysInside b h in
      let c = (read_u8 b).1 in
      let moved = read_u8-moves b in
      let size : length c.bytes ≡ length b.bytes = ap length first.1 in
      let rest : (tag : ℕ)
          → (read_u8 b).0 ≡ ok tag
          → InsideAt (decode_by_tag (decode_items f) tag) c =
        λ tag e.
          decode_by_tag-InsideAt (decode_items f) c (omega (arith, first.3))
            (λ n d same le inside.
              decode_items-InsideAt f n d inside
                (omega (arith, ap length same, moved tag e, size, first.3)))
            tag in
      (
        bind-InsideAt read_u8 _ b first rest,
        bind-pos read_u8 _ b (suc b.pos) (λ tag e. omega (arith, moved tag e, (rest tag e).2)),
      )

  decode_items-InsideAt :
      (f n : ℕ) (b : ByteBuffer)
      → b.pos ≤ length b.bytes
      → 2 * (length b.bytes - b.pos) + 1 < f
      → InsideAt (decode_items f n) b
  decode_items-InsideAt zero n b h hf = absurd (omega arith)
  decode_items-InsideAt (suc f) zero b h hf = pure-StaysInside nil b h
  decode_items-InsideAt (suc f) (suc n) b h hf =
      let first = decode_one-InsideAt f b h (omega arith) in
      let c = (decode_one f b).1 in
      let size : length c.bytes ≡ length b.bytes = ap length first.0.1 in
      let more : InsideAt (one_more f n) b = bind-InsideAt (decode_one f) _ b first.0 λ v e.
        let inside : c.pos ≤ length c.bytes = omega (arith, size, first.0.3) in
        let there =
          decode_items-InsideAt f n c inside (omega (arith, size, first.1 v e, first.0.3)) in
        bind-InsideAt (decode_items f n) _ c there λ vs e'.
          pure-StaysInside (cons v vs) (decode_items f n c).1
            (omega (arith, ap length there.1, there.3)) in
      elim (Bool-cases (has_data b)) [
        | inl e ↦ rw (decode_items-has_data f n b e) more
        | inr e ↦ rw (decode_items-at_end f n b e) (pure-StaysInside nil b h)
      ]

-- From any position inside the buffer `decode` comes to an end, leaves the bytes as they are and the
-- position inside.
pub decode_total :
    (b : ByteBuffer)
    → b.pos ≤ length b.bytes
    → ((decode b).0 ≢ stuck) × ((decode b).1.bytes ≡ b.bytes) × ((decode b).1.pos ≤ length b.bytes)
unfolding decode
decode_total b h =
    let all = decode_one-InsideAt (2 * (length b.bytes - b.pos) + 1) b h (omega arith) in
    (all.0.0, all.0.1, all.0.3)

-- From any position inside the buffer, a `decode` that returns a value has read at least one byte.
pub decode-moves :
    (b : ByteBuffer) (v : DlmsValue)
    → b.pos ≤ length b.bytes
    → (decode b).0 ≡ ok v
    → b.pos < (decode b).1.pos
unfolding decode
decode-moves b v h = (decode_one-InsideAt (2 * (length b.bytes - b.pos) + 1) b h (omega arith)).1 v
