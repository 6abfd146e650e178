-- ===== src/ByteBuffer/Runs.antt =====
-- Runs of include/dlms/core/byte_buffer.hpp on concrete bytes.
use dlms_cosem_cpp.Base.{◌≡◌, refl, arith, [], ◌∷◌, ◌++◌}
use dlms_cosem_cpp.Core.{ok, err, invalid_length}
use dlms_cosem_cpp.ByteBuffer.{
  ByteBuffer, of_bytes, advance, u16_bytes, u32_bytes, u64_bytes, variable_length_bytes,
  read_variable_length,
}
use dlms_cosem_cpp.ByteBuffer.RoundTrip.{read_words, read_words-written}
use dlms_cosem_cpp.ByteBuffer.Length.{read_variable_length-written, read_variable_length-too_long}

-- Two lengths, the first of three bytes.
abbrev long_then_short : ByteBuffer
long_then_short = of_bytes (0x82 ∷ (0x01 ∷ (0x2C ∷ (0x05 ∷ []))))

read_variable_length-written_example :
    read_variable_length long_then_short ≡ (ok 300, advance 3 long_then_short)
unfolding variable_length_bytes
read_variable_length-written_example =
    read_variable_length-written 300 long_then_short (0x05 ∷ []) (omega arith) (omega arith, refl)

-- The length 2 ^ 32 and one more byte.
abbrev four_gigabytes : ByteBuffer
four_gigabytes = of_bytes (0x85 ∷ (0x01 ∷ (0x00 ∷ (0x00 ∷ (0x00 ∷ (0x00 ∷ (0x07 ∷ [])))))))

read_variable_length-too_long_example : (read_variable_length four_gigabytes).0 ≡ err invalid_length
unfolding variable_length_bytes
read_variable_length-too_long_example =
    read_variable_length-too_long 4294967296 four_gigabytes (0x07 ∷ []) (omega arith) (omega arith)
      (omega arith, refl)

abbrev three_words : ByteBuffer
unfolding u16_bytes u32_bytes u64_bytes
three_words = of_bytes (u16_bytes 513 ++ (u32_bytes 70000 ++ (u64_bytes 5000000000 ++ (0x09 ∷ []))))

read_words-written_example :
    read_words three_words
    ≡ (ok (513, (70000, 5000000000)), advance 8 (advance 4 (advance 2 three_words)))
unfolding three_words
read_words-written_example =
    read_words-written 513 70000 5000000000 three_words (0x09 ∷ []) (omega arith) (omega arith)
      (omega arith) (omega arith, refl)
