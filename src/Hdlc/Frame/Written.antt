-- ===== src/Hdlc/Frame/Written.antt =====
-- src/dlms/hdlc/frame.cpp: the bytes that `to_bytes` writes for a frame with one-byte addresses.
use dlms_cosem_cpp.Base.{
  ℕ, ◌+◌, ◌-◌, ◌*◌, ◌<◌, ◌≡◌, ◌≢◌, refl, ap, ◌∙◌, arith, true, ◌||◌, List, [], ◌∷◌, ◌++◌, length,
  length-append, append_assoc, take, get_or, take-append, drop-append, get_or-drop, is_empty,
  ==_refl, none,
}
use dlms_cosem_cpp.Core.{ok}
use dlms_cosem_cpp.ByteBuffer.{ByteBuffer, of_bytes, write_u8, write_u16, write_bytes, u16_bytes}
use dlms_cosem_cpp.Hdlc.Control.{unknown, format_word, write_format, to_byte}
use dlms_cosem_cpp.Hdlc.Address.Laws.{to_bytes_short}
use dlms_cosem_cpp.Hdlc.Crc.{calculate}
use dlms_cosem_cpp.Hdlc.Frame.{
  HdlcFrame, write_crc, write_information, frame_writer, has_hcs, check_fcs,
}

-- The two bytes of a check sequence.
abbrev pub crc_bytes : List ℕ → List ℕ
crc_bytes xs = (calculate xs true).0 ∷ ((calculate xs true).1 ∷ [])

pub take-length : (xs ys : List ℕ) (n : ℕ) → n ≡ length xs → take n (xs ++ ys) ≡ xs
take-length xs ys n e = ap (λ (k : ℕ). take k (xs ++ ys)) e ∙ take-append xs ys

pub get_or-behind :
    (xs ys : List ℕ) (i k : ℕ) → k ≡ length xs + i → get_or (xs ++ ys) k 0 ≡ get_or ys i 0
get_or-behind xs ys i k e =
    get_or-drop (length xs) i k (xs ++ ys) 0 e
    ∙ ap (λ (t : List ℕ). get_or t i 0) (drop-append xs ys)

-- Bytes that end in their own check sequence pass the check.
pub check_fcs_lem :
    (frame : HdlcFrame) (body : List ℕ) (p : ℕ)
    → let b : ByteBuffer = record { bytes = body ++ crc_bytes body; pos = p } in
      check_fcs frame b ≡ (ok frame, b)
check_fcs_lem frame body p =
    let size = length-append body (crc_bytes body) in
    rw (
      take-length body (crc_bytes body) (length (body ++ crc_bytes body) - 2) (omega (arith, size)),
      get_or-behind body (crc_bytes body) 0 (length (body ++ crc_bytes body) - 2)
          (omega (arith, size)),
      get_or-behind body (crc_bytes body) 1 (length (body ++ crc_bytes body) - 1)
          (omega (arith, size)),
      ==_refl (calculate body true).0,
      ==_refl (calculate body true).1,
    )

-- What stands before the check sequence of a frame with one-byte addresses.
abbrev pub head : HdlcFrame → List ℕ
head f =
    u16_bytes (format_word f.format)
    ++ ((2 * f.dest.logical + 1) ∷ ((2 * f.source.logical + 1) ∷ (to_byte f.control ∷ [])))

abbrev pub body_with : HdlcFrame → List ℕ → List ℕ
body_with f [] = head f
body_with f (x ∷ xs) = head f ++ (crc_bytes (head f) ++ (x ∷ xs))

abbrev pub body : HdlcFrame → List ℕ
body f = body_with f f.information_field

-- The addresses are of one byte, and the other fields fit theirs.
pub record IsShortFrame (f : HdlcFrame) : Type 0 where
  pub dest_short : f.dest.logical < 128
  pub dest_logical : f.dest.physical ≡ none
  pub source_short : f.source.logical < 128
  pub source_logical : f.source.physical ≡ none
  pub format_fits : f.format.length < 2048
  pub known : f.control.type ≢ unknown
  pub send_fits : f.control.send_seq < 8
  pub recv_fits : f.control.recv_seq < 8
  -- Only these types are read with a header check sequence, which is written before information.
  pub carries : (is_empty f.information_field || has_hcs f.control.type) ≡ true

-- The last two steps of the writer, on the bytes before them.
information_written :
    (f : HdlcFrame) (xs : List ℕ)
    → (write_crc (write_information xs (record { bytes = head f; pos = 0 }))).bytes
      ≡ body_with f xs ++ crc_bytes (body_with f xs)
unfolding u16_bytes write_u8 write_bytes
information_written f [] = refl
information_written f (x ∷ xs) =
    let whole = body_with f (x ∷ xs) in
    append_assoc whole ((calculate whole true).0 ∷ []) ((calculate whole true).1 ∷ [])

pub frame_writer-body :
    (f : HdlcFrame)
    → IsShortFrame f
    → (frame_writer f (of_bytes [])).bytes ≡ body f ++ crc_bytes (body f)
unfolding frame_writer write_format u16_bytes write_u8 write_u16 write_bytes
frame_writer-body f h =
    let dest = to_bytes_short f.dest h.dest_logical h.dest_short in
    let source = to_bytes_short f.source h.source_logical h.source_short in
    rw (dest, source) (information_written f f.information_field)
