-- ===== src/ByteBuffer/Length.antt =====
-- The lengths of byte_buffer.hpp: what `write_variable_length` appends, `read_variable_length` takes
-- off again, as far as it accepts it.
use dlms_cosem_cpp.Base.{
  ℕ, zero, suc, ◌*◌, ◌^◌, ◌≤◌, ◌<◌, bit_and, bit_or, ◌≡◌, refl, ap, ◌∙◌, ◌⊎◌, arith, Bool, true,
  ◌||◌, ◌&&◌, List, [], ◌∷◌, ◌++◌, length, ltb, leb, ◌==◌, if◌then◌else◌, Bool-cases, inl, inr,
  ==_iff,
}
use dlms_cosem_cpp.Base.Bits.{u8, ◌>>>◌, all_below, all_below→holds}
use dlms_cosem_cpp.Core.{ok, err, invalid_length}
use dlms_cosem_cpp.ByteBuffer.{
  ByteBuffer, advance, Reader, pure, fail, push_byte, push_bytes, read_u8, read_length_bytes,
  read_variable_length, big_endian, count_bytes, variable_length_bytes,
}
use dlms_cosem_cpp.ByteBuffer.View.{Left, Reads, Reads-bind, pure-Reads, read_u8-Reads}
use dlms_cosem_cpp.ByteBuffer.RoundTrip.{
  two-pow-le, eight_bits_more, length-big_endian, push_bytes-big_endian,
}
use mathlib.Core.Path.{subst₂}
use native.Mathlib.Nat.{mod-eq_of_lt}
use native.Mathlib.Decide.{dec_lt}

-- The loop of `read_variable_length` pushes the bytes that it reads.
read_length_bytes-Reads :
    (xs : List ℕ) (acc : ℕ) → Reads (read_length_bytes (length xs) acc) xs (push_bytes acc xs)
unfolding read_length_bytes
read_length_bytes-Reads [] acc =
    λ b tail h. ap (λ (t : ℕ). (ok acc, record b { pos = t })) (omega arith)
read_length_bytes-Reads (x ∷ xs) acc =
    Reads-bind read_u8 (λ (y : ℕ). read_length_bytes (length xs) (push_byte acc y)) (x ∷ []) xs x
      (push_bytes acc (x ∷ xs)) (read_u8-Reads x) (read_length_bytes-Reads xs (push_byte acc x))

-- `count_bytes` counts bytes that hold its argument, and no more than are needed.
count_bytes-holds : (f v : ℕ) → v < 2 ^ (f * 8) → v < 2 ^ (count_bytes f v * 8)
unfolding count_bytes
count_bytes-holds zero v h = h
count_bytes-holds (suc f) v h = elim (Bool-cases (v == 0)) [
  | inl e ↦ rw e (omega (arith, (==_iff v 0).0 e))
  | inr e ↦ rw e (
      omega (
        arith,
        eight_bits_more f,
        eight_bits_more (count_bytes f (v >>> 8)),
        count_bytes-holds f (v >>> 8) (omega (arith, eight_bits_more f)),
      ))
]

count_bytes-zero : (f : ℕ) → count_bytes f 0 ≡ 0
unfolding count_bytes
count_bytes-zero zero = refl
count_bytes-zero (suc f) = refl

count_bytes-le : (k f v : ℕ) → v < 2 ^ (k * 8) → count_bytes f v ≤ k
unfolding count_bytes
count_bytes-le zero f v h = let e : v ≡ 0 = omega arith in rw (e, count_bytes-zero) (omega arith)
count_bytes-le (suc k) zero v h = omega arith
count_bytes-le (suc k) (suc f) v h =
    ground (arith, count_bytes-le k f (v >>> 8) (omega (arith, eight_bits_more k)))

count_bytes-pos : (f v : ℕ) → 0 < v → 1 ≤ count_bytes (suc f) v
unfolding count_bytes
count_bytes-pos f v h = ground arith

-- The first byte of a long length: its top bit, and the count of bytes in the rest.
length_byte :
    (n : ℕ)
    → n ≤ 8
    → (bit_and (u8 (bit_or 0x80 n)) 0x80 ≡ 0x80) × (bit_and (u8 (bit_or 0x80 n)) 0x7F ≡ n)
length_byte zero h = (refl, refl)
length_byte (suc zero) h = (refl, refl)
length_byte (suc (suc zero)) h = (refl, refl)
length_byte (suc (suc (suc zero))) h = (refl, refl)
length_byte (suc (suc (suc (suc zero)))) h = (refl, refl)
length_byte (suc (suc (suc (suc (suc zero))))) h = (refl, refl)
length_byte (suc (suc (suc (suc (suc (suc zero)))))) h = (refl, refl)
length_byte (suc (suc (suc (suc (suc (suc (suc zero))))))) h = (refl, refl)
length_byte (suc (suc (suc (suc (suc (suc (suc (suc zero)))))))) h = (refl, refl)
length_byte (suc (suc (suc (suc (suc (suc (suc (suc (suc n))))))))) h = absurd (omega arith)

-- What `read_variable_length` does after a first byte that announces `n` more.
abbrev after_first : ℕ → Reader ℕ
after_first f =
    let nb = bit_and f 0x7F in
    if bit_and f 0x80 == 0
    then pure f
    else (if nb == 0 || ltb 4 nb then fail invalid_length else read_length_bytes nb 0)

after_first_long :
    (n : ℕ) → 1 ≤ n → n ≤ 4 → after_first (u8 (bit_or 0x80 n)) ≡ read_length_bytes n 0
after_first_long n l h =
    rw ((length_byte n (omega arith)).0, (length_byte n (omega arith)).1) (ground arith)

after_first_too_long :
    (n : ℕ) → 4 < n → n ≤ 8 → after_first (u8 (bit_or 0x80 n)) ≡ fail invalid_length
after_first_too_long n l h =
    rw ((length_byte n (omega arith)).0, (length_byte n (omega arith)).1) (ground arith)

abbrev short_byte : ℕ → Bool
short_byte x = (bit_and (u8 x) 0x80 == 0) && (u8 x == x)

short_byte_table : all_below 128 short_byte ≡ true
short_byte_table = refl

after_first_short : (n : ℕ) → n ≤ 0x7F → after_first (u8 n) ≡ pure n
after_first_short n h =
    let both = all_below→holds 128 short_byte n short_byte_table (omega arith) in
    let e : u8 n ≡ n = omega arith in
    let top : (bit_and n 0x80 == 0) ≡ true = ground (arith, both) in rw (e, top)

-- The long form of a length: the count of its bytes, then the bytes.
abbrev long_form : ℕ → List ℕ
long_form len = u8 (bit_or 0x80 (count_bytes 8 len)) ∷ big_endian (count_bytes 8 len) len

variable_length_bytes-cases :
    (len : ℕ)
    → ((len ≤ 0x7F) × (variable_length_bytes len ≡ u8 len ∷ []))
      ⊎ ((0x7F < len) × (variable_length_bytes len ≡ long_form len))
unfolding variable_length_bytes
variable_length_bytes-cases len = elim (Bool-cases (leb len 0x7F)) [
  | inl e ↦ inl (ground arith, rw e)
  | inr e ↦ inr (ground arith, rw e)
]

read_short-Reads : (len : ℕ) → len ≤ 0x7F → Reads read_variable_length (u8 len ∷ []) len
unfolding read_variable_length
read_short-Reads len h =
    Reads-bind read_u8 after_first (u8 len ∷ []) [] (u8 len) len (read_u8-Reads (u8 len))
      (rw (after_first_short len h) (pure-Reads len))

read_long-Reads :
    (len : ℕ) → 0x7F < len → len < 2 ^ 32 → Reads read_variable_length (long_form len) len
unfolding read_variable_length
read_long-Reads len l h =
    let n : ℕ = count_bytes 8 len in
    let head : ℕ = u8 (bit_or 0x80 n) in
    let few : n ≤ 4 = count_bytes-le 4 8 len (omega arith) in
    let some_left : 1 ≤ n = count_bytes-pos 7 len (omega arith) in
    let value : push_bytes 0 (big_endian n len) ≡ len =
      push_bytes-big_endian n 0 len (omega (arith, two-pow-le (n * 8) 32))
      ∙ omega (arith, mod-eq_of_lt (count_bytes-holds 8 len (omega arith))) in
    let rest : Reads (read_length_bytes n 0) (big_endian n len) len =
      subst₂ (λ (k v : ℕ). Reads (read_length_bytes k 0) (big_endian n len) v)
        (length-big_endian n len) value (read_length_bytes-Reads (big_endian n len) 0) in
    Reads-bind read_u8 after_first (head ∷ []) (big_endian n len) head len (read_u8-Reads head)
      (rw (after_first_long n some_left few) rest)

pub read_variable_length-Reads :
    (len : ℕ) → len < 2 ^ 32 → Reads read_variable_length (variable_length_bytes len) len
read_variable_length-Reads len h = elim (variable_length_bytes-cases len) [
  | inl (short, e) ↦ rw e (read_short-Reads len short)
  | inr (long, e) ↦ rw e (read_long-Reads len long h)
]

-- A length below 2 ^ 32 that is written next in a buffer is read back, with no byte more.
pub read_variable_length-written :
    (len : ℕ) (b : ByteBuffer) (tail : List ℕ)
    → len < 2 ^ 32
    → Left b (variable_length_bytes len ++ tail)
    → read_variable_length b ≡ (ok len, advance (length (variable_length_bytes len)) b)
read_variable_length-written len b tail h left = read_variable_length-Reads len h b tail left

-- A length from 2 ^ 32 on, below 2 ^ 64, takes more than four bytes, and the reader refuses it.
pub read_variable_length-too_long :
    (len : ℕ) (b : ByteBuffer) (tail : List ℕ)
    → 2 ^ 32 ≤ len
    → len < 2 ^ 64
    → Left b (variable_length_bytes len ++ tail)
    → (read_variable_length b).0 ≡ err invalid_length
unfolding read_variable_length
read_variable_length-too_long len b tail l h left = elim (variable_length_bytes-cases len) [
  | inl (short, e) ↦ absurd (omega arith)
  | inr (long, e) ↦ refused (rw e at left)
]
  where
    many : 4 < count_bytes 8 len
    many = elim (dec_lt 4 (count_bytes 8 len)) [
      | yes g ↦ g
      | no g ↦ absurd (
          omega (
            arith,
            count_bytes-holds 8 len (omega arith),
            two-pow-le (count_bytes 8 len * 8) 32 (omega arith),
          ))
    ]

    refused : Left b (long_form len ++ tail) → (read_variable_length b).0 ≡ err invalid_length
    refused g = rw (
      read_u8-Reads (u8 (bit_or 0x80 (count_bytes 8 len))) b
          (big_endian (count_bytes 8 len) len ++ tail) g,
      after_first_too_long (count_bytes 8 len) many (count_bytes-le 8 8 len (omega arith)),
    )
