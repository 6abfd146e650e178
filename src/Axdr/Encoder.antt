-- ===== src/Axdr/Encoder.antt =====
-- src/dlms/axdr/encoder.cpp: `AxdEncoder`, whose state is its buffer. A pointer argument is a list.
use dlms_cosem_cpp.Base.{ℕ, Bool, List, length, take, if◌then◌else◌}
use dlms_cosem_cpp.Base.Int.{ℤ}
use dlms_cosem_cpp.Core.Tag
use dlms_cosem_cpp.ByteBuffer.{
  Writer, ◌>>◌, write_u8, write_i8, write_u16, write_i16, write_u32, write_i32, write_u64,
  write_i64, write_bytes, write_string, write_variable_length,
}
use dlms_cosem_cpp.Axdr.Value.{
  DlmsValue, DlmsValues, null, bool, int8, int16, int32, int64, uint8, uint16, uint32, uint64,
  float, double, octets, string, array, structure, nil, cons, count,
}

unfoldable pub encode_null : Writer
unfolding write_u8
encode_null = write_u8 Tag.null

unfoldable pub encode_bool : Bool → Writer
unfolding write_u8
encode_bool v = do write_u8 Tag.boolean; write_u8 (if v then 1 else 0)

unfoldable pub encode_int8 : ℤ → Writer
unfolding write_u8 write_i8
encode_int8 v = do write_u8 Tag.integer; write_i8 v

unfoldable pub encode_int16 : ℤ → Writer
unfolding write_u8 write_i16
encode_int16 v = do write_u8 Tag.long; write_i16 v

unfoldable pub encode_int32 : ℤ → Writer
unfolding write_u8 write_i32
encode_int32 v = do write_u8 Tag.double_long; write_i32 v

unfoldable pub encode_int64 : ℤ → Writer
unfolding write_u8 write_i64
encode_int64 v = do write_u8 Tag.long64; write_i64 v

unfoldable pub encode_uint8 : ℕ → Writer
unfolding write_u8
encode_uint8 v = do write_u8 Tag.unsigned_integer; write_u8 v

unfoldable pub encode_uint16 : ℕ → Writer
unfolding write_u8 write_u16
encode_uint16 v = do write_u8 Tag.unsigned_long; write_u16 v

unfoldable pub encode_uint32 : ℕ → Writer
unfolding write_u8 write_u32
encode_uint32 v = do write_u8 Tag.double_long_unsigned; write_u32 v

unfoldable pub encode_uint64 : ℕ → Writer
unfolding write_u8 write_u64
encode_uint64 v = do write_u8 Tag.unsigned_long64; write_u64 v

-- `&v` of a float is its four bytes, of a double its eight.
unfoldable pub encode_float32 : List ℕ → Writer
unfolding write_u8 write_bytes
encode_float32 v = do write_u8 Tag.float32; write_bytes v

unfoldable pub encode_float64 : List ℕ → Writer
unfolding write_u8 write_bytes
encode_float64 v = do write_u8 Tag.float64; write_bytes v

unfoldable pub encode_octet_string : List ℕ → Writer
unfolding write_u8 write_variable_length write_bytes
encode_octet_string v = do
  write_u8 Tag.octet_string
  write_variable_length (length v)
  write_bytes v

unfoldable pub encode_string : List ℕ → Writer
unfolding write_u8 write_variable_length write_string
encode_string s = do write_u8 Tag.visible_string; write_variable_length (length s); write_string s

unfoldable pub encode_enum : ℕ → Writer
unfolding write_u8
encode_enum v = do write_u8 Tag.enum; write_u8 v

unfoldable pub encode_date : List ℕ → Writer
unfolding write_u8 write_bytes
encode_date d = do write_u8 Tag.date; write_bytes (take 5 d)

unfoldable pub encode_time : List ℕ → Writer
unfolding write_u8 write_bytes
encode_time d = do write_u8 Tag.time; write_bytes (take 4 d)

unfoldable pub encode_datetime : List ℕ → Writer
unfolding write_u8 write_bytes
encode_datetime d = do write_u8 Tag.date_time; write_bytes (take 12 d)

unfoldable pub encode_array_header : ℕ → Writer
unfolding write_u8 write_variable_length
encode_array_header n = do write_u8 Tag.array; write_variable_length n

unfoldable pub encode_structure_header : ℕ → Writer
unfolding write_u8 write_variable_length
encode_structure_header n = do write_u8 Tag.structure; write_variable_length n

unfoldable pub encode_dont_care : Writer
unfolding write_u8
encode_dont_care = write_u8 Tag.dont_care

unfoldable mutual
  unfolding encode_null encode_bool encode_int8 encode_int16 encode_int32 encode_int64 encode_uint8
      encode_uint16 encode_uint32 encode_uint64 encode_float32 encode_float64 encode_octet_string
      encode_string encode_array_header encode_structure_header

  pub encode_value : DlmsValue → Writer
  encode_value null = encode_null
  encode_value (bool v) = encode_bool v
  encode_value (int8 v) = encode_int8 v
  encode_value (int16 v) = encode_int16 v
  encode_value (int32 v) = encode_int32 v
  encode_value (int64 v) = encode_int64 v
  encode_value (uint8 v) = encode_uint8 v
  encode_value (uint16 v) = encode_uint16 v
  encode_value (uint32 v) = encode_uint32 v
  encode_value (uint64 v) = encode_uint64 v
  encode_value (float v) = encode_float32 v
  encode_value (double v) = encode_float64 v
  encode_value (octets v) = encode_octet_string v
  encode_value (string v) = encode_string v
  encode_value (array vs) = do encode_array_header (count vs); encode_values vs
  encode_value (structure vs) = do encode_structure_header (count vs); encode_values vs

  pub encode_values : DlmsValues → Writer
  encode_values nil = λ b. b
  encode_values (cons v vs) = do encode_value v; encode_values vs
