-- ===== src/Hdlc/Runs.antt =====
-- Runs of src/dlms/hdlc on concrete frames.
use dlms_cosem_cpp.Base.{
  ℕ, ◌+◌, ◌-◌, ◌*◌, ◌/◌, ◌%◌, ◌≤◌, ◌≡◌, ◌≢◌, ◌↔◌, refl, arith, Bool, true, false, ◌&&◌, and_left,
  and_right, List, [], ◌∷◌, none, some, length, take, drop, get_or, All, ltb, ltb→lt,
}
use dlms_cosem_cpp.Base.Bits.{IsByte}
use dlms_cosem_cpp.Core.{ok}
use dlms_cosem_cpp.Hdlc.Crc.{calculate}
use dlms_cosem_cpp.Hdlc.Crc.Bitwise.{bitwise_loop, crc_x25, calculate-crc_x25}
use dlms_cosem_cpp.Hdlc.Crc.Reversed.{bit_steps, bit_step}
use dlms_cosem_cpp.Hdlc.Frame.Accepted.{from_bytes-accepted}
use dlms_cosem_cpp.ByteBuffer.{u16_bytes, write_u8, write_u16, write_bytes}
use dlms_cosem_cpp.Hdlc.Escape.{
  hdlc_flag_byte, Has, hdlc_escape, hdlc_unescape, hdlc_unescape-hdlc_escape, hdlc_escape-flag_iff,
}
use dlms_cosem_cpp.Hdlc.Control.{
  ControlField, information, from_byte, to_byte, format_word, write_format,
}
use dlms_cosem_cpp.Hdlc.Control.Laws.{as_read, from_byte-to_byte}
use dlms_cosem_cpp.Hdlc.Address.{server, to_bytes, parse}
use dlms_cosem_cpp.Hdlc.Address.Laws.{parse-to_bytes_physical, parse-to_bytes_long}
use dlms_cosem_cpp.Hdlc.Frame.{HdlcFrame, make_information, frame_bytes, from_bytes}
use dlms_cosem_cpp.Hdlc.Frame.Written.{IsShortFrame}
use dlms_cosem_cpp.Hdlc.Frame.RoundTrip.{frame_as_read, from_bytes-frame_bytes}

-- Each of the bytes that are escaped, and one that is not.
abbrev special : List ℕ
special = 0x7E ∷ (0x7D ∷ (0x5E ∷ (0x5D ∷ (0x01 ∷ []))))

hdlc_unescape-hdlc_escape_example : hdlc_unescape (hdlc_escape special) ≡ special
hdlc_unescape-hdlc_escape_example = hdlc_unescape-hdlc_escape special

hdlc_escape-flag_iff_example : Has hdlc_flag_byte (hdlc_escape special) ↔ Has 0x5E special
hdlc_escape-flag_iff_example = hdlc_escape-flag_iff special

abbrev third : ControlField
third = record { type = information; send_seq = 3; recv_seq = 5; final = true; raw = 0 }

from_byte-to_byte_example : from_byte (to_byte third) ≡ as_read third
from_byte-to_byte_example = from_byte-to_byte third (λ e. cc) (omega arith) (omega arith)

parse-to_bytes_physical_example :
    parse (to_bytes (record { logical = 1; physical = some 17; type = server })) server
    ≡ record { logical = 2177; physical = none; type = server }
parse-to_bytes_physical_example = parse-to_bytes_physical 1 17 (omega arith) (omega arith)

parse-to_bytes_long_example :
    (parse (to_bytes (record { logical = 200; physical = none; type = server })) server).logical
    ≢ 200
parse-to_bytes_long_example = parse-to_bytes_long 200 (omega arith) (omega arith)

-- A frame from a client, with information that is escaped.
abbrev request : HdlcFrame
request = make_information 16 1 2 3 special

request-IsShortFrame : IsShortFrame request
unfolding make_information
request-IsShortFrame = record {
  dest_short = omega arith;
  dest_logical = refl;
  source_short = omega arith;
  source_logical = refl;
  format_fits = omega arith;
  known = λ e. cc;
  send_fits = omega arith;
  recv_fits = omega arith;
  carries = refl;
}

from_bytes-frame_bytes_example : from_bytes (frame_bytes request) ≡ ok (frame_as_read request)
from_bytes-frame_bytes_example = from_bytes-frame_bytes request request-IsShortFrame

abbrev all_bytes : List ℕ → Bool
all_bytes [] = true
all_bytes (x ∷ xs) = ltb x 256 && all_bytes xs

all_bytes-All : (xs : List ℕ) → all_bytes xs ≡ true → All IsByte xs
all_bytes-All [] h = tt
all_bytes-All (x ∷ xs) h = (ltb→lt x 256 (and_left _ _ h), all_bytes-All xs (and_right _ _ h))

request-all_bytes : all_bytes (frame_bytes request) ≡ true
unfolding frame_bytes make_information hdlc_escape write_u8 write_bytes write_format write_u16
    u16_bytes format_word to_bytes to_byte calculate
request-all_bytes = refl

from_bytes-accepted_example :
    let d = frame_bytes request in
    let content = hdlc_unescape (take (length d - 2) (drop 1 d)) in
    let n = length content in
    (6 ≤ length d)
    × (get_or d 0 0 ≡ hdlc_flag_byte)
    × (get_or d (length d - 1) 0 ≡ hdlc_flag_byte)
    × (crc_x25 (take (n - 2) content) ≡ get_or content (n - 2) 0 * 256 + get_or content (n - 1) 0)
from_bytes-accepted_example =
    from_bytes-accepted (frame_bytes request) (frame_as_read request)
      (all_bytes-All (frame_bytes request) request-all_bytes)
      (from_bytes-frame_bytes request request-IsShortFrame)

-- "123456789", whose check value is 0x906E.
abbrev digits : List ℕ
digits = 0x31 ∷ 0x32 ∷ 0x33 ∷ 0x34 ∷ 0x35 ∷ 0x36 ∷ 0x37 ∷ 0x38 ∷ 0x39 ∷ []

digits-crc : crc_x25 digits ≡ 0x906E
unfolding crc_x25 bitwise_loop bit_steps bit_step
digits-crc = refl

calculate-crc_x25_example :
    (calculate digits true ≡ (crc_x25 digits / 256, crc_x25 digits % 256))
    × (calculate digits false ≡ (crc_x25 digits % 256, crc_x25 digits / 256))
calculate-crc_x25_example = calculate-crc_x25 digits (all_bytes-All digits refl)
