-- ===== src/Hdlc/Frame.antt =====
-- include/dlms/hdlc/frame.hpp and src/dlms/hdlc/frame.cpp: whole frames.
pub mod Written
pub mod RoundTrip
pub mod Accepted
use dlms_cosem_cpp.Base.{
  ℕ, ◌+◌, ◌-◌, Bool, true, false, not, ◌||◌, ◌&&◌, List, [], ◌∷◌, ◌++◌, length, get_or, take, drop,
  is_empty, ltb, ◌==◌, if◌then◌else◌, bit_and, none,
}
use dlms_cosem_cpp.Core.{Result, ok, err, stuck, invalid_data, crc_error}
use dlms_cosem_cpp.ByteBuffer.{
  ByteBuffer, Reader, Writer, of_bytes, ◌>>=◌, ◌>>◌, pure, fail, read_u8, read_u16, set_position,
  remaining_bytes, write_u8, write_bytes,
}
use dlms_cosem_cpp.Hdlc.Escape.{hdlc_flag_byte, hdlc_escape, hdlc_unescape}
use dlms_cosem_cpp.Hdlc.Control.{
  FrameType, snrm, ua, rr, information, disconnect, ui, unknown, FrameFormat, ControlField,
  new_control, read_format, write_format, from_byte, to_byte,
}
use dlms_cosem_cpp.Hdlc.Address.{HdlcAddress, client, server, to_bytes, parse}
use dlms_cosem_cpp.Hdlc.Crc.{calculate}

pub record HdlcFrame : Type 0 where
  pub format : FrameFormat
  pub dest : HdlcAddress
  pub source : HdlcAddress
  pub control : ControlField
  pub information_field : List ℕ

abbrev new_format : FrameFormat
new_format = record { length = 0; segmented = false }

abbrev client_address : ℕ → HdlcAddress
client_address a = record { logical = a; physical = none; type = client }

abbrev server_address : ℕ → HdlcAddress
server_address a = record { logical = a; physical = none; type = server }

unfoldable pub make_snrm : ℕ → ℕ → HdlcFrame
make_snrm c s = record {
  format = new_format;
  dest = server_address s;
  source = client_address c;
  control = new_control snrm;
  information_field = [];
}

unfoldable pub make_ua : ℕ → ℕ → HdlcFrame
make_ua c s = record {
  format = new_format;
  dest = client_address c;
  source = server_address s;
  control = new_control ua;
  information_field = [];
}

unfoldable pub make_rr : ℕ → ℕ → ℕ → HdlcFrame
make_rr c s recv = record {
  format = new_format;
  dest = client_address c;
  source = server_address s;
  control = record (new_control rr) { recv_seq = recv };
  information_field = [];
}

unfoldable pub make_information : ℕ → ℕ → ℕ → ℕ → List ℕ → HdlcFrame
make_information c s send recv payload = record {
  format = new_format;
  dest = server_address s;
  source = client_address c;
  control = record (new_control information) { send_seq = send; recv_seq = recv };
  information_field = payload;
}

unfoldable pub make_disconnect : ℕ → ℕ → HdlcFrame
make_disconnect c s = record {
  format = new_format;
  dest = server_address s;
  source = client_address c;
  control = new_control disconnect;
  information_field = [];
}

-- Writes the check sequence of what is written so far.
abbrev pub write_crc : Writer
write_crc b = let fcs = calculate b.bytes true in (write_u8 fcs.0 >> write_u8 fcs.1) b

-- The header check sequence and the information, if there is any.
abbrev pub write_information : List ℕ → Writer
write_information xs = if is_empty xs then (λ b. b) else (do write_crc; write_bytes xs)

-- What stands between the flags, before escaping.
unfoldable pub frame_writer : HdlcFrame → Writer
frame_writer f = do
  write_format f.format
  write_bytes (to_bytes f.dest)
  write_bytes (to_bytes f.source)
  write_u8 (to_byte f.control)
  write_information f.information_field
  write_crc

unfoldable pub frame_bytes : HdlcFrame → List ℕ
unfolding frame_writer
frame_bytes f =
    hdlc_flag_byte ∷ (hdlc_escape (frame_writer f (of_bytes [])).bytes ++ (hdlc_flag_byte ∷ []))

-- Both loops over the address bytes: up to the first byte with the end mark, that byte included.
unfoldable pub take_address : List ℕ → List ℕ
take_address [] = []
take_address (x ∷ xs) =
    let more = take_address xs in if bit_and x 0x01 == 0 then x ∷ more else x ∷ []

-- The information is what stands between the position and the last two bytes.
abbrev pub information_at : ByteBuffer → List ℕ
information_at b =
    let fcs_pos = length b.bytes - 2 in
    if ltb b.pos fcs_pos then take (fcs_pos - b.pos) (drop b.pos b.bytes) else []

abbrev pub has_hcs : FrameType → Bool
has_hcs information = true
has_hcs ui = true
has_hcs _ = false

-- The end of `from_bytes`: the last two bytes are the check sequence of all before them.
abbrev pub check_fcs : HdlcFrame → Reader HdlcFrame
check_fcs frame b =
    let n = length b.bytes in
    let fcs = calculate (take (n - 2) b.bytes) true in
    if fcs.0 == get_or b.bytes (n - 2) 0 && fcs.1 == get_or b.bytes (n - 1) 0
    then (ok frame, b)
    else (err crc_error, b)

-- `hcs = buf.read_u16()`, where the control field says that there is one; it is not verified.
abbrev pub skip_hcs : FrameType → Reader (Unit {0})
skip_hcs t = if has_hcs t then (read_u16 >>= λ _. pure tt) else pure tt

abbrev pub finish_frame : FrameFormat → List ℕ → List ℕ → ControlField → Reader HdlcFrame
finish_frame fmt dest src control b =
    check_fcs
      (record {
        format = fmt;
        dest = parse dest client;
        source = parse src server;
        control = control;
        information_field = information_at b;
      })
      b

abbrev pub after_format : FrameFormat → Reader HdlcFrame
after_format fmt b =
    let rest = remaining_bytes b in
    let dest = take_address rest in
    let src = take_address (drop (length dest) rest) in
    let body : Reader HdlcFrame = (do
      c ← read_u8
      let control = from_byte c
      _ ← skip_hcs control.type
      finish_frame fmt dest src control) in
    body (set_position (2 + length dest + length src) b)

unfoldable pub parse_content : Reader HdlcFrame
parse_content = do fmt ← read_format; after_format fmt

unfoldable pub from_bytes : List ℕ → Result HdlcFrame
unfolding parse_content
from_bytes d =
    let n = length d in
    if ltb n 6 || not (get_or d 0 0 == hdlc_flag_byte) || not (get_or d (n - 1) 0 == hdlc_flag_byte)
    then err invalid_data
    else (parse_content (of_bytes (hdlc_unescape (take (n - 2) (drop 1 d))))).0
