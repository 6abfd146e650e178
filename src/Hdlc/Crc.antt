-- ===== src/Hdlc/Crc.antt =====
-- include/dlms/hdlc/crc.hpp and src/dlms/hdlc/crc.cpp: the frame check sequence, CRC-16.
pub mod Reversed
pub mod Bitwise
use dlms_cosem_cpp.Base.{
  ℕ, zero, suc, ◌+◌, ◌-◌, bit_and, bit_or, bit_xor, Bool, true, ◌&&◌, List, [], ◌∷◌, map, ◌==◌,
  if◌then◌else◌,
}
use dlms_cosem_cpp.Base.Bits.{u16, ◌<<<◌, ◌>>>◌}

abbrev pub poly : ℕ
poly = 0x1021

abbrev pub init : ℕ
init = 0xFFFF

-- The inner loop of `table`, with `n` rounds left.
unfoldable pub table_rounds : ℕ → ℕ → ℕ → ℕ
table_rounds zero crc c = crc
table_rounds (suc n) crc c =
    table_rounds n
      (if bit_and (bit_xor crc c) 0x8000 == 0
        then u16 (crc <<< 1)
        else u16 (bit_xor (crc <<< 1) poly))
      (u16 (c <<< 1))

-- `table()[i]`
unfoldable pub table : ℕ → ℕ
unfolding table_rounds
table i = bit_and (table_rounds 8 0 (u16 (i <<< 8))) 0xFFFF

-- The loop of `reverse_bits` at bit `i`, with `n` rounds left.
unfoldable pub reverse_rounds : ℕ → ℕ → ℕ → ℕ → ℕ
reverse_rounds zero i b r = r
reverse_rounds (suc n) i b r =
    reverse_rounds n (i + 1) b (bit_or r (bit_and (b >>> i) 1 <<< (7 - i)))

unfoldable pub reverse_bits : ℕ → ℕ
unfolding reverse_rounds
reverse_bits b = reverse_rounds 8 0 b 0

unfoldable pub reverse_bytes : List ℕ → List ℕ
unfolding reverse_bits
reverse_bytes = map reverse_bits

-- The body of the loop of `calculate`.
unfoldable pub crc_step : ℕ → ℕ → ℕ
unfolding table
crc_step crc x =
    let tmp = bit_xor (bit_and (crc >>> 8) 0xFF) x in
    bit_xor (bit_and (crc <<< 8) 0xFF00) (table tmp)

unfoldable pub crc_loop : ℕ → List ℕ → ℕ
unfolding crc_step
crc_loop crc [] = crc
crc_loop crc (x ∷ xs) = crc_loop (crc_step crc x) xs

-- The two bytes, in the order in which they are sent.
unfoldable pub calculate : List ℕ → Bool → ℕ × ℕ
unfolding reverse_bytes crc_loop
calculate d lsb_first =
    let crc = crc_loop init (reverse_bytes d) in
    let lsb = bit_xor (reverse_bits (bit_and crc 0xFF)) 0xFF in
    let msb = bit_xor (reverse_bits (bit_and (crc >>> 8) 0xFF)) 0xFF in
    if lsb_first then (lsb, msb) else (msb, lsb)

unfoldable pub verify : List ℕ → ℕ × ℕ → Bool → Bool
unfolding calculate
verify d crc lsb_first = let calc = calculate d lsb_first in calc.0 == crc.0 && calc.1 == crc.1
