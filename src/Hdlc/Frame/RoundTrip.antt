-- ===== src/Hdlc/Frame/RoundTrip.antt =====
-- A frame that `to_bytes` of src/dlms/hdlc/frame.cpp makes is read back by `from_bytes`.
use dlms_cosem_cpp.Base.{
  ℕ, suc, ◌+◌, ◌-◌, ◌*◌, ◌≤◌, ◌≡◌, refl, ap, ◌∙◌, arith, Bool, true, false, ◌||◌, List, [], ◌∷◌,
  ◌++◌, length, length-append, take, is_empty, le→ltb, lt→ltb, ◌==◌, if◌then◌else◌, none,
  Bool-cases, inl, inr, bit_and,
}
use mathlib.Core.Path.{subst}
use dlms_cosem_cpp.Base.Bits.{bit_and-mask}
use dlms_cosem_cpp.Core.{Result, ok}
use dlms_cosem_cpp.ByteBuffer.{
  ByteBuffer, of_bytes, advance, read_u16, set_position, remaining_bytes, u16_bytes,
}
use dlms_cosem_cpp.ByteBuffer.View.{Left, Left-length, of_bytes-Left, read_u8-Reads}
use dlms_cosem_cpp.Hdlc.Escape.{hdlc_flag_byte, hdlc_escape, hdlc_unescape-hdlc_escape}
use dlms_cosem_cpp.Hdlc.Control.{FrameType, to_byte}
use dlms_cosem_cpp.Hdlc.Control.Format.{read_format-Reads}
use dlms_cosem_cpp.Hdlc.Control.Laws.{as_read, from_byte-to_byte}
use dlms_cosem_cpp.Hdlc.Address.{client, server}
use dlms_cosem_cpp.Hdlc.Address.Laws.{parse_short}
use dlms_cosem_cpp.Hdlc.Crc.{calculate}
use dlms_cosem_cpp.Hdlc.Frame.{
  HdlcFrame, frame_bytes, take_address, information_at, has_hcs, check_fcs, skip_hcs, parse_content,
  from_bytes,
}
use dlms_cosem_cpp.Hdlc.Frame.Written.{
  IsShortFrame, crc_bytes, head, body_with, take-length, get_or-behind, check_fcs_lem,
  frame_writer-body,
}

-- A one-byte address ends at its byte.
take_address-odd : (n : ℕ) (xs : List ℕ) → take_address ((2 * n + 1) ∷ xs) ≡ (2 * n + 1) ∷ []
unfolding take_address
take_address-odd n xs =
    let e : (bit_and (2 * n + 1) 0x01 == 0) ≡ false = ground (arith, bit_and-mask 1 (2 * n + 1)) in
    rw e

-- What is skipped is there to be skipped.
skip_hcs_lem :
    (t : FrameType) (b : ByteBuffer)
    → b.pos + 2 ≤ length b.bytes
    → skip_hcs t b ≡ (ok tt, advance (if has_hcs t then 2 else 0) b)
unfolding read_u16
skip_hcs_lem t b h = elim (Bool-cases (has_hcs t)) [
  | inl e ↦ rw (e, le→ltb (length b.bytes) (b.pos + 2) h)
  | inr e ↦ rw e (ap (λ (k : ℕ). (ok tt, record b { pos = k })) (omega arith))
]

-- The frame as it is read: the destination is taken for a client and the source for a server.
abbrev pub frame_as_read : HdlcFrame → HdlcFrame
frame_as_read f = record f {
  dest = record { logical = f.dest.logical; physical = none; type = client };
  source = record { logical = f.source.logical; physical = none; type = server };
  control = as_read f.control;
}

-- The position behind the control field and the check sequence that may follow it.
abbrev at_information : FrameType → List ℕ → ByteBuffer
at_information t bytes = record { bytes = bytes; pos = 5 + (if has_hcs t then 2 else 0) }

-- Up to the information, on bytes that begin with the fields of a frame.
parse_fields :
    (f : HdlcFrame) (rest : List ℕ)
    → IsShortFrame f
    → 2 ≤ length rest
    → let b = at_information f.control.type (head f ++ rest) in
      parse_content (of_bytes (head f ++ rest))
      ≡ check_fcs (record (frame_as_read f) { information_field = information_at b }) b
unfolding parse_content u16_bytes remaining_bytes set_position
parse_fields f rest h two =
    let bytes = head f ++ rest in
    let d = 2 * f.dest.logical + 1 in
    let s = 2 * f.source.logical + 1 in
    let c = to_byte f.control in
    let format_read =
      read_format-Reads f.format h.format_fits (of_bytes bytes) (d ∷ (s ∷ (c ∷ rest)))
        (of_bytes-Left bytes) in
    let control_read =
      read_u8-Reads c (record { bytes = bytes; pos = 4 }) rest (omega arith, refl) in
    let control_known = from_byte-to_byte f.control h.known h.send_fits h.recv_fits in
    let skipped = skip_hcs_lem f.control.type (record { bytes = bytes; pos = 5 }) (omega arith) in
    rw (
      format_read,
      take_address-odd,
      take_address-odd,
      control_read,
      control_known,
      skipped,
      parse_short f.dest.logical client h.dest_short,
      parse_short f.source.logical server h.source_short,
    )

-- The whole of what is between the flags, for information `xs`.
abbrev content_with : HdlcFrame → List ℕ → List ℕ
content_with f xs = body_with f xs ++ crc_bytes (body_with f xs)

-- Information that stands before two bytes is found.
between_lem :
    (bytes xs : List ℕ) (p c0 c1 : ℕ)
    → 1 ≤ length xs
    → Left (record { bytes = bytes; pos = p }) (xs ++ (c0 ∷ (c1 ∷ [])))
    → information_at (record { bytes = bytes; pos = p }) ≡ xs
between_lem bytes xs p c0 c1 some_left l =
    let end = c0 ∷ (c1 ∷ []) in
    let size = Left-length (record { bytes = bytes; pos = p }) (xs ++ end) l in
    let all = length-append {0} xs end in
    rw (lt→ltb p (length bytes - 2) (omega (arith, size, all))) (
      ap (take (length bytes - 2 - p)) l.1
      ∙ take-length xs end (length bytes - 2 - p) (omega (arith, size, all)))

information_at_lem :
    (f : HdlcFrame) (t : FrameType) (xs : List ℕ)
    → (is_empty xs ≡ false → has_hcs t ≡ true)
    → information_at (at_information t (content_with f xs)) ≡ xs
unfolding u16_bytes
information_at_lem f t [] h = elim (Bool-cases (has_hcs t)) [ inl e ↦ rw e | inr e ↦ rw e ]
information_at_lem f t (x ∷ xs) h =
    let whole = body_with f (x ∷ xs) in
    rw (h refl) (
      between_lem (content_with f (x ∷ xs)) (x ∷ xs) 7 (calculate whole true).0
        (calculate whole true).1 (omega arith) (omega arith, refl))

parse_content_lem :
    (f : HdlcFrame) (xs : List ℕ)
    → IsShortFrame f
    → (is_empty xs ≡ false → has_hcs f.control.type ≡ true)
    → (parse_content (of_bytes (content_with f xs))).0
      ≡ ok (record (frame_as_read f) { information_field = xs })
unfolding u16_bytes
parse_content_lem f xs h carries = whole xs (information_at_lem f f.control.type xs carries)
  where
    frame : List ℕ → HdlcFrame
    frame ys = record (frame_as_read f) { information_field = ys }

    -- The same bytes as the fields with what follows them, and as the body with its check.
    checked :
        (before rest ys : List ℕ)
        → head f ++ rest ≡ before ++ crc_bytes before
        → information_at (at_information f.control.type (before ++ crc_bytes before)) ≡ ys
        → 2 ≤ length rest
        → (parse_content (of_bytes (before ++ crc_bytes before))).0 ≡ ok (frame ys)
    checked before rest ys same e two =
        let at = at_information f.control.type in
        let fields : (parse_content (of_bytes (before ++ crc_bytes before))).0
            ≡ (check_fcs (frame (information_at (at (before ++ crc_bytes before))))
                (at (before ++ crc_bytes before))).0 =
          subst
            (λ (bytes : List ℕ).
              (parse_content (of_bytes bytes)).0
              ≡ (check_fcs (frame (information_at (at bytes))) (at bytes)).0)
            same (ap (λ (r : Result HdlcFrame × ByteBuffer). r.0) (parse_fields f rest h two)) in
        fields
        ∙ ap (λ (r : Result HdlcFrame × ByteBuffer). r.0)
            (check_fcs_lem (frame (information_at (at (before ++ crc_bytes before)))) before
              (at []).pos)
        ∙ ap (λ (zs : List ℕ). ok (frame zs)) e

    whole :
        (xs : List ℕ)
        → information_at (at_information f.control.type (content_with f xs)) ≡ xs
        → (parse_content (of_bytes (content_with f xs))).0 ≡ ok (frame xs)
    whole [] e = checked (head f) (crc_bytes (head f)) [] refl e (omega arith)
    whole (x ∷ xs) e =
        checked (body_with f (x ∷ xs))
          (crc_bytes (head f) ++ ((x ∷ xs) ++ crc_bytes (body_with f (x ∷ xs)))) (x ∷ xs) refl e
          (omega arith)

-- Escaping makes nothing shorter.
length-hdlc_escape : (xs : List ℕ) → length xs ≤ length (hdlc_escape xs)
unfolding hdlc_escape
length-hdlc_escape [] = omega arith
length-hdlc_escape (x ∷ xs) = ground (arith, length-hdlc_escape xs)

-- Between two flags the content is found again.
from_bytes_flags :
    (xs : List ℕ)
    → 4 ≤ length xs
    → from_bytes (hdlc_flag_byte ∷ (hdlc_escape xs ++ (hdlc_flag_byte ∷ [])))
      ≡ (parse_content (of_bytes xs)).0
unfolding from_bytes
from_bytes_flags xs h =
    let out = hdlc_escape xs in
    let flag : List ℕ = hdlc_flag_byte ∷ [] in
    let size = length-append {0} out flag in
    let long = length-hdlc_escape xs in
    rw (
      le→ltb (suc (length (out ++ flag))) 6 (omega (arith, size, long)),
      get_or-behind (hdlc_flag_byte ∷ out) flag 0 (suc (length (out ++ flag)) - 1)
          (omega (arith, size)),
      take-length out flag (suc (length (out ++ flag)) - 2) (omega (arith, size)),
      hdlc_unescape-hdlc_escape xs,
    )

-- Two addresses, a control byte and a check sequence are always written.
length-content_with : (f : HdlcFrame) (xs : List ℕ) → 4 ≤ length (content_with f xs)
unfolding u16_bytes
length-content_with f [] = omega arith
length-content_with f (x ∷ xs) = omega arith

or_right : (a b : Bool) → (a || b) ≡ true → a ≡ false → b ≡ true
or_right true b h e = cc
or_right false b h e = h

-- A frame with one-byte addresses, a known type and fields that fit is read back, information
-- included; only the address types are set anew, and the control field is as it is read.
pub from_bytes-frame_bytes :
    (f : HdlcFrame) → IsShortFrame f → from_bytes (frame_bytes f) ≡ ok (frame_as_read f)
unfolding frame_bytes
from_bytes-frame_bytes f h = rw (frame_writer-body f h) (
    from_bytes_flags (content_with f f.information_field)
      (length-content_with f f.information_field)
    ∙ parse_content_lem f f.information_field h (or_right _ _ h.carries))
