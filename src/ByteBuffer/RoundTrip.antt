-- ===== src/ByteBuffer/RoundTrip.antt =====
-- What each writer of byte_buffer.hpp appends, the reader of the same width takes off again.
use dlms_cosem_cpp.Base.{
  ℕ, zero, suc, ◌+◌, ◌*◌, ◌/◌, ◌%◌, ◌^◌, ◌≤◌, ◌<◌, bit_and, ◌≡◌, refl, ap, ◌∙◌, arith, List, ◌++◌,
  length, take,
}
use dlms_cosem_cpp.Base.Bits.{◌>>>◌, bit_or-fields, bit_and-mask, or_bytes}
use dlms_cosem_cpp.Core.{ok}
use dlms_cosem_cpp.ByteBuffer.{
  ByteBuffer, Reader, advance, ◌>>=◌, pure, push_byte, push_bytes, read_u16, read_u32, read_u64,
  u16_bytes, u32_bytes, u64_bytes, big_endian,
}
use dlms_cosem_cpp.ByteBuffer.View.{Left, Left-advance, Reads, Reads-fixed, peek_at-Left}
use native.Mathlib.Nat.{
  div-add-mod, mod-lt, mod-eq_of_lt, mul-add-mod_self_left, one-le-pow, mul-le-mul_left,
  mul-le-mul_right, pow-le-pow_right,
}
use native.Mathlib.Numerals.{towards_suc}

low_byte : (v : ℕ) → bit_and v 0xFF ≡ v % 256
low_byte v = bit_and-mask 8 v

pub read_u16-Reads : (v : ℕ) → v < 2 ^ 16 → Reads read_u16 (u16_bytes v) v
unfolding read_u16 u16_bytes
read_u16-Reads v hv = Reads-fixed 2 _ (u16_bytes v) v refl λ b tail h.
    let xs = u16_bytes v ++ tail in
    rw (peek_at-Left b xs 0 h, peek_at-Left b xs 1 h, low_byte, low_byte)
      (bit_or-fields 8 (v / 2 ^ 8 % 256) (v % 256) (omega arith) ∙ omega arith)

pub read_u32-Reads : (v : ℕ) → v < 2 ^ 32 → Reads read_u32 (u32_bytes v) v
unfolding read_u32 u32_bytes
read_u32-Reads v hv = Reads-fixed 4 _ (u32_bytes v) v refl λ b tail h.
    let xs = u32_bytes v ++ tail in
    rw (peek_at-Left b xs 0 h, peek_at-Left b xs 1 h, peek_at-Left b xs 2 h, peek_at-Left b xs 3 h)
      (simp low_byte (
        or_bytes (v / 2 ^ 24 % 256) (v / 2 ^ 16 % 256) (v / 2 ^ 8 % 256) (v % 256) (omega arith)
          (omega arith) (omega arith)
        ∙ omega arith))

pub two-pow-le : (i j : ℕ) → i ≤ j → 2 ^ i ≤ 2 ^ j
two-pow-le i j h = pow-le-pow_right (omega arith) h

-- The remainder by `256 * m` is the digit above `m` and the remainder by `m`.
mod-split : (m v : ℕ) → 0 < m → v % (256 * m) ≡ v / m % 256 * m + v % m
mod-split m v h =
    let q : ℕ = v / m / 256 in
    let x : ℕ = v / m % 256 in
    let r : ℕ = x * m + v % m in
    let bound : x * m ≤ 255 * m = mul-le-mul_right m (omega arith) in
    let small : r < 256 * m = omega (arith, mod-lt v h) in
    let parts : v ≡ 256 * m * q + r =
      omega (arith, div-add-mod v m, ap (λ (t : ℕ). m * t) (div-add-mod (v / m) 256)) in
    ap (λ (t : ℕ). t % (256 * m)) parts ∙ mul-add-mod_self_left (256 * m) q r ∙ mod-eq_of_lt small

pub eight_bits_more : (n : ℕ) → 2 ^ (suc n * 8) ≡ 256 * 2 ^ (n * 8)
eight_bits_more n =
    let e : suc n * 8 ≡ n * 8 + 8 = omega arith in rw e (simp towards_suc (omega arith))

-- Bytes that are pushed one after the other stand for the number that they are written from.
pub push_bytes-big_endian :
    (n acc v : ℕ)
    → acc * 2 ^ (n * 8) + 2 ^ (n * 8) ≤ 2 ^ 64
    → push_bytes acc (big_endian n v) ≡ acc * 2 ^ (n * 8) + v % 2 ^ (n * 8)
unfolding big_endian
push_bytes-big_endian zero acc v h = omega arith
push_bytes-big_endian (suc n) acc v h =
    let m : ℕ = 2 ^ (n * 8) in
    let pos : 0 < m = one-le-pow (n * 8) 2 (omega arith) in
    let x : ℕ = v / m % 256 in
    let scaled : acc * 2 ^ (suc n * 8) ≡ acc * (256 * m) =
      ap (λ (t : ℕ). acc * t) (eight_bits_more n) in
    let room : acc * 256 * m + 256 * m ≤ 2 ^ 64 = omega (arith, scaled, eight_bits_more n) in
    let fits : acc * 256 < 2 ^ 64 = omega (arith, mul-le-mul_left (acc * 256) pos) in
    let pushed : push_byte acc (bit_and (v >>> (n * 8)) 255) ≡ acc * 256 + x =
      rw (low_byte, mod-eq_of_lt fits) (bit_or-fields 8 acc x (omega arith)) in
    let bound : x * m ≤ 255 * m = mul-le-mul_right m (omega arith) in
    ap (λ (t : ℕ). push_bytes t (big_endian n v)) pushed
    ∙ (push_bytes-big_endian n (acc * 256 + x) v (omega arith)
        ∙ omega (
          arith,
          scaled,
          eight_bits_more n,
          mod-split m v pos,
          ap (λ (t : ℕ). v % t) (eight_bits_more n),
        ))

pub length-big_endian : (n v : ℕ) → length (big_endian n v) ≡ n
unfolding big_endian
length-big_endian zero v = refl
length-big_endian (suc n) v = ap suc (length-big_endian n v)

pub read_u64-Reads : (v : ℕ) → v < 2 ^ 64 → Reads read_u64 (u64_bytes v) v
unfolding read_u64 u64_bytes
read_u64-Reads v hv = Reads-fixed 8 _ (big_endian 8 v) v (length-big_endian 8 v) λ b tail h.
    ap (λ (t : List ℕ). push_bytes 0 (take 8 t)) h.1
    ∙ (push_bytes-big_endian 8 0 v (omega arith) ∙ omega (arith, mod-eq_of_lt hv))

-- A word of each width in turn.
abbrev pub read_words : Reader (ℕ × (ℕ × ℕ))
read_words = do x ← read_u16; y ← read_u32; z ← read_u64; pure (x, (y, z))

-- The big-endian words of two, four and eight bytes that are written next in a buffer are read back,
-- with no byte more.
pub read_words-written :
    (a c d : ℕ) (b : ByteBuffer) (tail : List ℕ)
    → a < 2 ^ 16
    → c < 2 ^ 32
    → d < 2 ^ 64
    → Left b (u16_bytes a ++ (u32_bytes c ++ (u64_bytes d ++ tail)))
    → read_words b ≡ (ok (a, (c, d)), advance 8 (advance 4 (advance 2 b)))
unfolding u16_bytes u32_bytes u64_bytes
read_words-written a c d b tail ha hc hd left =
    let first = read_u16-Reads a ha b (u32_bytes c ++ (u64_bytes d ++ tail)) left in
    let l1 = Left-advance b (u16_bytes a) (u32_bytes c ++ (u64_bytes d ++ tail)) left in
    let second = read_u32-Reads c hc (advance 2 b) (u64_bytes d ++ tail) l1 in
    let l2 = Left-advance (advance 2 b) (u32_bytes c) (u64_bytes d ++ tail) l1 in
    let third = read_u64-Reads d hd (advance 4 (advance 2 b)) tail l2 in rw (first, second, third)
