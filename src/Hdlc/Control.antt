-- ===== src/Hdlc/Control.antt =====
-- include/dlms/hdlc/frame.hpp and src/dlms/hdlc/frame.cpp: the frame format field and the control
-- field. Sequence numbers are not negative.
pub mod Laws
pub mod Format
use dlms_cosem_cpp.Base.{
  ℕ, ◌+◌, ◌*◌, ◌<◌, bit_and, bit_or, Bool, true, false, not, ◌==◌, if◌then◌else◌, List, ◌≡◌,
}
use dlms_cosem_cpp.Base.Bits.{u8, u16, ◌<<<◌, ◌>>>◌}
use dlms_cosem_cpp.Core.{Result, ok, err, invalid_data}
use dlms_cosem_cpp.ByteBuffer.{ByteBuffer, Reader, Writer, ◌>>=◌, pure, fail, read_u8, write_u16}

pub data FrameType : Type 0 where
  snrm ua rr information disconnect ui unknown : FrameType

pub record FrameFormat : Type 0 where
  pub length : ℕ
  pub segmented : Bool

pub record ControlField : Type 0 where
  pub raw : ℕ
  pub type : FrameType
  pub send_seq : ℕ
  pub recv_seq : ℕ
  pub final : Bool

-- `FrameFormat::from_bytes`, after the two bytes are read.
abbrev pub format_of : ℕ → ℕ → Reader FrameFormat
format_of b0 b1 =
    let val = bit_or (b0 <<< 8) b1 in
    if bit_and val 0xF000 == 0xA000
    then pure (record { length = bit_and val 0x07FF; segmented = not (bit_and val 0x0800 == 0) })
    else fail invalid_data

unfoldable pub read_format : Reader FrameFormat
unfolding read_u8
read_format = do b0 ← read_u8; b1 ← read_u8; format_of b0 b1

-- The 16 bits that `FrameFormat::to_bytes` writes.
unfoldable pub format_word : FrameFormat → ℕ
format_word f =
    let val = bit_or 0xA000 (bit_and f.length 0x07FF) in
    if f.segmented then bit_or val 0x0800 else val

unfoldable pub write_format : FrameFormat → Writer
write_format f = write_u16 (format_word f)

-- A `ControlField` as it is made: `raw` 0, no sequence numbers, final.
abbrev pub new_control : FrameType → ControlField
new_control t = record { raw = 0; type = t; send_seq = 0; recv_seq = 0; final = true }

abbrev bit : ℕ → ℕ → Bool
bit b k = not (bit_and (b >>> k) 0x01 == 0)

unfoldable pub from_byte : ℕ → ControlField
from_byte b =
    let cf : ControlField = record (new_control unknown) { raw = b; final = bit b 4 } in
    if bit_and b 0x01 == 0
    then record cf {
      type = information;
      send_seq = bit_and (b >>> 1) 0x07;
      recv_seq = bit_and (b >>> 5) 0x07;
    }
    else (if bit_and b 0xEF == 0x83
        then record cf { type = snrm }
        else (if bit_and b 0xEF == 0x63
            then record cf { type = ua }
            else (if bit_and b 0xEF == 0x43
                then record cf { type = disconnect }
                else (if bit_and b 0xEF == 0x03
                    then record cf { type = ui }
                    else (if bit_and b 0x03 == 0x01
                        then record cf { recv_seq = bit_and (b >>> 5) 0x07; type = rr }
                        else cf)))))

abbrev poll_bit : Bool → ℕ
poll_bit final = if final then 0x10 else 0

-- `to_byte`, by the cases of its `switch`.
unfoldable pub control_byte : FrameType → ControlField → ℕ
control_byte information c = u8 (
    bit_or (bit_or (bit_and c.send_seq 0x07 <<< 1) ((if c.final then 1 else 0) <<< 4))
      (bit_and c.recv_seq 0x07 <<< 5))
control_byte snrm c = bit_or 0x83 (poll_bit c.final)
control_byte ua c = bit_or 0x63 (poll_bit c.final)
control_byte rr c = u8 (bit_or (bit_or 0x01 (c.recv_seq <<< 5)) (poll_bit c.final))
control_byte disconnect c = bit_or 0x43 (poll_bit c.final)
control_byte ui c = bit_or 0x03 (poll_bit c.final)
control_byte unknown c = 0

unfoldable pub to_byte : ControlField → ℕ
unfolding control_byte
to_byte c = control_byte c.type c
