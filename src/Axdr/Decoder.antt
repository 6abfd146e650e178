-- ===== src/Axdr/Decoder.antt =====
-- src/dlms/axdr/decoder.cpp: `AxdDecoder`, whose state is its buffer.
use dlms_cosem_cpp.Base.{
  ℕ, zero, suc, ◌+◌, ◌-◌, ◌*◌, ◌≡◌, true, false, List, length, ◌==◌, if◌then◌else◌,
}
use dlms_cosem_cpp.Core.{ok, stuck, invalid_tag}
use dlms_cosem_cpp.Core.Tag
use dlms_cosem_cpp.ByteBuffer.{
  ByteBuffer, Reader, ◌>>=◌, pure, fail, has_data, read_u8, read_i8, read_u16, read_i16, read_u32,
  read_i32, read_u64, read_i64, read_bytes, read_variable_length,
}
use dlms_cosem_cpp.Axdr.Value.{
  DlmsValue, DlmsValues, null, bool, int8, int16, int32, int64, uint8, uint16, uint32, uint64,
  float, double, octets, string, array, structure, nil, cons,
}

-- The three cases that read a length and that many bytes.
unfoldable pub decode_sized : Reader (List ℕ)
unfolding read_variable_length read_bytes
decode_sized = do len ← read_variable_length; read_bytes len

-- The `switch` of `decode_by_tag`. The loop over the items of an array or a structure, which calls
-- `decode_one` again, is an argument, so that the recursion stands in one place.
unfoldable pub decode_by_tag : (ℕ → Reader DlmsValues) → ℕ → Reader DlmsValue
unfolding read_u8 read_i8 read_u16 read_i16 read_u32 read_i32 read_u64 read_i64 read_bytes
    read_variable_length decode_sized
decode_by_tag items tag =
    if tag == Tag.null
    then pure null
    else (if tag == Tag.boolean
        then (do v ← read_u8; pure (bool (if v == 0 then false else true)))
        else (if tag == Tag.integer
            then (do v ← read_i8; pure (int8 v))
            else (if tag == Tag.long
                then (do v ← read_i16; pure (int16 v))
                else (if tag == Tag.double_long
                    then (do v ← read_i32; pure (int32 v))
                    else (if tag == Tag.long64
                        then (do v ← read_i64; pure (int64 v))
                        else (if tag == Tag.unsigned_integer
                            then (do v ← read_u8; pure (uint8 v))
                            else (if tag == Tag.unsigned_long
                                then (do v ← read_u16; pure (uint16 v))
                                else (if tag == Tag.double_long_unsigned
                                    then (do v ← read_u32; pure (uint32 v))
                                    else (if tag == Tag.unsigned_long64
                                        then (do v ← read_u64; pure (uint64 v))
                                        else (if tag == Tag.float32
                                            then (do b ← read_bytes 4; pure (float b))
                                            else (if tag == Tag.float64
                                                then (do b ← read_bytes 8; pure (double b))
                                                else (if tag == Tag.octet_string
                                                    then (do b ← decode_sized; pure (octets b))
                                                    else (if tag == Tag.bit_string
                                                        then (do b ← decode_sized; pure (octets b))
                                                        else (if tag == Tag.visible_string
                                                            then (do
                                                              b ← decode_sized
                                                              pure (string b))
                                                            else (if tag == Tag.utf8_string
                                                            then (do
                                                              b ← decode_sized
                                                              pure (string b))
                                                            else (if tag == Tag.enum
                                                            then (do v ← read_u8; pure (uint8 v))
                                                            else (if tag == Tag.date
                                                            then (do
                                                              b ← read_bytes 5
                                                              pure (octets b))
                                                            else (if tag == Tag.time
                                                            then (do
                                                              b ← read_bytes 4
                                                              pure (octets b))
                                                            else (if tag == Tag.date_time
                                                            then (do
                                                              b ← read_bytes 12
                                                              pure (octets b))
                                                            else (if tag == Tag.array
                                                            then (do
                                                              n ← read_variable_length
                                                              vs ← items n
                                                              pure (array vs))
                                                            else (if tag == Tag.structure
                                                            then (do
                                                              n ← read_variable_length
                                                              vs ← items n
                                                              pure (structure vs))
                                                            else (if tag == Tag.bcd
                                                            then (do
                                                              b ← decode_sized
                                                              pure (octets b))
                                                            else (if tag == Tag.compact_array
                                                            then pure null
                                                            else (if tag == Tag.dont_care
                                                            then pure null
                                                            else fail
                                                            invalid_tag))))))))))))))))))))))))

-- The recursion goes on bytes that a call leaves unread, so it takes fuel.
unfoldable mutual
  unfolding read_u8 decode_by_tag

  pub decode_one : ℕ → Reader DlmsValue
  decode_one zero = λ b. (stuck, b)
  decode_one (suc f) = do tag ← read_u8; decode_by_tag (decode_items f) tag

  -- `for (i = 0; i < count && buf_.has_data(); ++i)`, with `n` rounds left
  pub decode_items : ℕ → ℕ → Reader DlmsValues
  decode_items zero n = λ b. (stuck, b)
  decode_items (suc f) zero = pure nil
  decode_items (suc f) (suc n) = λ b.
      let more : Reader DlmsValues = (do
        v ← decode_one f
        vs ← decode_items f n
        pure (cons v vs)) in
      elim (has_data b) [ true ↦ more b | false ↦ (ok nil, b) ]

abbrev pub one_more : ℕ → ℕ → Reader DlmsValues
one_more f n = do v ← decode_one f; vs ← decode_items f n; pure (cons v vs)

pub decode_items-has_data :
    (f n : ℕ) (b : ByteBuffer) → has_data b ≡ true → decode_items (suc f) (suc n) b ≡ one_more f n b
unfolding decode_one
decode_items-has_data f n b e = rw (e, decode_items)

pub decode_items-at_end :
    (f n : ℕ) (b : ByteBuffer) → has_data b ≡ false → decode_items (suc f) (suc n) b ≡ (ok nil, b)
unfolding decode_one
decode_items-at_end f n b e = rw (e, decode_items)

-- A call reads its tag, so twice the bytes left are fuel enough.
unfoldable pub decode : Reader DlmsValue
unfolding decode_one
decode b = decode_one (2 * (length b.bytes - b.pos) + 1) b
