-- ===== src/ByteBuffer.antt =====
-- include/dlms/core/byte_buffer.hpp: a growing byte vector with one read position. A read that
-- fails may already have moved the position, so a reader returns the buffer beside its result.
-- `size_t` is taken as 64 bits wide; positions and sizes stay far below it.
pub mod View
pub mod RoundTrip
pub mod Length
pub mod Bounds
mod Runs
use dlms_cosem_cpp.Base.{
  ℕ, zero, suc, ◌+◌, ◌-◌, ◌*◌, ◌^◌, bit_and, bit_or, Bool, true, false, ◌||◌, not, List, [], ◌∷◌,
  ◌++◌, length, get_or, take, drop, ltb, leb, ◌==◌, if◌then◌else◌,
}
use dlms_cosem_cpp.Base.Bits.{u8, u64, ◌<<<◌, ◌>>>◌}
use dlms_cosem_cpp.Base.Int.{ℤ, to_signed, to_unsigned}
use dlms_cosem_cpp.Core.{DlmsError, buffer_underflow, invalid_length, Result, ok, err, stuck}

pub record ByteBuffer : Type 0 where
  pub bytes : List ℕ
  pub pos : ℕ

abbrev pub of_bytes : List ℕ → ByteBuffer
of_bytes d = record { bytes = d; pos = 0 }

-- A read moves nothing but the position.
abbrev pub advance : ℕ → ByteBuffer → ByteBuffer
advance n b = record b { pos = b.pos + n }

abbrev pub Reader {ℓ} : Type ℓ → Type ℓ
Reader A = ByteBuffer → Result A × ByteBuffer

abbrev pub resume {ℓ κ} :
    {A : Type ℓ} {B : Type κ} → Result A → ByteBuffer → (A → Reader B) → Result B × ByteBuffer
resume (ok a) c f = f a c
resume (err e) c f = (err e, c)
resume stuck c f = (stuck, c)

infixl 5 ◌>>=◌
abbrev pub ◌>>=◌ {ℓ κ} : {A : Type ℓ} {B : Type κ} → Reader A → (A → Reader B) → Reader B
◌>>=◌ m f b = let r = m b in resume r.0 r.1 f

abbrev pub pure {ℓ} : {A : Type ℓ} → A → Reader A
pure a b = (ok a, b)

abbrev pub fail {ℓ} : {A : Type ℓ} → DlmsError → Reader A
fail e b = (err e, b)

-- The byte `i` places behind the position; what it is past the end is never used.
abbrev pub peek_at : ByteBuffer → ℕ → ℕ
peek_at b i = get_or b.bytes (b.pos + i) 0

-- The guard of the fixed-width reads: `n` bytes are left, and `value` is made of them.
abbrev pub read_fixed {ℓ} : {A : Type ℓ} → ℕ → (ByteBuffer → A) → Reader A
read_fixed n value b =
    if ltb (length b.bytes) (b.pos + n)
    then (err buffer_underflow, b)
    else (ok (value b), advance n b)

unfoldable pub read_u8 : Reader ℕ
read_u8 b =
    if leb (length b.bytes) b.pos
    then (err buffer_underflow, b)
    else (ok (peek_at b 0), advance 1 b)

unfoldable pub read_u16 : Reader ℕ
read_u16 = read_fixed 2 λ b. bit_or (peek_at b 0 <<< 8) (peek_at b 1)

unfoldable pub read_u32 : Reader ℕ
read_u32 = read_fixed 4 λ b.
    bit_or (bit_or (bit_or (peek_at b 0 <<< 24) (peek_at b 1 <<< 16)) (peek_at b 2 <<< 8))
      (peek_at b 3)

-- `v = (v << 8) | b`, on 64 bits
abbrev pub push_byte : ℕ → ℕ → ℕ
push_byte v x = bit_or (u64 (v <<< 8)) x

abbrev pub push_bytes : ℕ → List ℕ → ℕ
push_bytes v [] = v
push_bytes v (x ∷ xs) = push_bytes (push_byte v x) xs

unfoldable pub read_u64 : Reader ℕ
read_u64 = read_fixed 8 λ b. push_bytes 0 (take 8 (drop b.pos b.bytes))

unfoldable pub read_i8 : Reader ℤ
unfolding read_u8
read_i8 = do r ← read_u8; pure (to_signed (2 ^ 8) r)

unfoldable pub read_i16 : Reader ℤ
unfolding read_u16
read_i16 = do r ← read_u16; pure (to_signed (2 ^ 16) r)

unfoldable pub read_i32 : Reader ℤ
unfolding read_u32
read_i32 = do r ← read_u32; pure (to_signed (2 ^ 32) r)

unfoldable pub read_i64 : Reader ℤ
unfolding read_u64
read_i64 = do r ← read_u64; pure (to_signed (2 ^ 64) r)

unfoldable pub read_bytes : ℕ → Reader (List ℕ)
read_bytes n = read_fixed n λ b. take n (drop b.pos b.bytes)

-- The loop of `read_variable_length`, over the bytes that are still to come.
unfoldable pub read_length_bytes : ℕ → ℕ → Reader ℕ
read_length_bytes zero len = pure len
read_length_bytes (suc n) len = do x ← read_u8; read_length_bytes n (push_byte len x)

unfoldable pub read_variable_length : Reader ℕ
unfolding read_u8 read_length_bytes
read_variable_length = do
  f ← read_u8
  let nb = bit_and f 0x7F
  if bit_and f 0x80 == 0
      then pure f
      else (if nb == 0 || ltb 4 nb then fail invalid_length else read_length_bytes nb 0)

-- What each writer appends.
unfoldable pub u16_bytes : ℕ → List ℕ
u16_bytes v = bit_and (v >>> 8) 0xFF ∷ bit_and v 0xFF ∷ []

unfoldable pub u32_bytes : ℕ → List ℕ
u32_bytes v =
    bit_and (v >>> 24) 0xFF ∷ bit_and (v >>> 16) 0xFF ∷ bit_and (v >>> 8) 0xFF ∷ bit_and v 0xFF ∷ []

-- The `n` low bytes of `v`, highest first: both `for` loops over `(v >> (i * 8)) & 0xFF`.
unfoldable pub big_endian : ℕ → ℕ → List ℕ
big_endian zero v = []
big_endian (suc n) v = bit_and (v >>> (n * 8)) 0xFF ∷ big_endian n v

unfoldable pub u64_bytes : ℕ → List ℕ
unfolding big_endian
u64_bytes v = big_endian 8 v

-- `while (t > 0) { ++nb; t >>= 8; }`: a `size_t` has eight bytes, so eight rounds are enough.
unfoldable pub count_bytes : ℕ → ℕ → ℕ
count_bytes zero t = 0
count_bytes (suc fuel) t = let more = suc (count_bytes fuel (t >>> 8)) in if t == 0 then 0 else more

unfoldable pub variable_length_bytes : ℕ → List ℕ
unfolding big_endian count_bytes
variable_length_bytes len =
    let nb = count_bytes 8 len in
    if leb len 0x7F then u8 len ∷ [] else u8 (bit_or 0x80 nb) ∷ big_endian nb len

-- A writer appends to the bytes and leaves the position.
abbrev pub Writer : Type 0
Writer = ByteBuffer → ByteBuffer

infixl 5 ◌>>◌
abbrev pub ◌>>◌ : Writer → Writer → Writer
◌>>◌ w w' b = w' (w b)

abbrev pub append : List ℕ → Writer
append xs b = record b { bytes = b.bytes ++ xs }

unfoldable pub write_u8 : ℕ → Writer
write_u8 v = append (v ∷ [])

unfoldable pub write_i8 : ℤ → Writer
write_i8 z = append (to_unsigned (2 ^ 8) z ∷ [])

unfoldable pub write_u16 : ℕ → Writer
write_u16 v = append (u16_bytes v)

unfoldable pub write_i16 : ℤ → Writer
unfolding write_u16
write_i16 z = write_u16 (to_unsigned (2 ^ 16) z)

unfoldable pub write_u32 : ℕ → Writer
write_u32 v = append (u32_bytes v)

unfoldable pub write_i32 : ℤ → Writer
unfolding write_u32
write_i32 z = write_u32 (to_unsigned (2 ^ 32) z)

unfoldable pub write_u64 : ℕ → Writer
write_u64 v = append (u64_bytes v)

unfoldable pub write_i64 : ℤ → Writer
unfolding write_u64
write_i64 z = write_u64 (to_unsigned (2 ^ 64) z)

unfoldable pub write_bytes : List ℕ → Writer
write_bytes xs = append xs

unfoldable pub write_string : List ℕ → Writer
unfolding write_bytes
write_string s = write_bytes s

unfoldable pub write_variable_length : ℕ → Writer
write_variable_length len = append (variable_length_bytes len)

unfoldable pub set_position : ℕ → ByteBuffer → ByteBuffer
set_position p b = record b { pos = p }

abbrev pub has_data : ByteBuffer → Bool
has_data b = ltb b.pos (length b.bytes)

-- `std::vector(begin + pos, end)`
unfoldable pub remaining_bytes : ByteBuffer → List ℕ
remaining_bytes b = drop b.pos b.bytes

-- `data_.size() - pos_`, of unsigned numbers: it wraps around when the position is past the end.
unfoldable pub remaining : ByteBuffer → ℕ
remaining b = u64 (length b.bytes + (2 ^ 64 - u64 b.pos))

unfoldable pub empty : ByteBuffer → Bool
empty b = leb (length b.bytes) b.pos

unfoldable pub clear : ByteBuffer → ByteBuffer
clear b = record { bytes = []; pos = 0 }

unfoldable pub reset_read : ByteBuffer → ByteBuffer
reset_read b = record b { pos = 0 }

unfoldable pub peek : ByteBuffer → ℕ
peek b = if ltb b.pos (length b.bytes) then peek_at b 0 else 0
