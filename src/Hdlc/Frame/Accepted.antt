-- ===== src/Hdlc/Frame/Accepted.antt =====
-- `HdlcFrame::from_bytes` of src/dlms/hdlc/frame.cpp: what is true of bytes that it accepts.
use dlms_cosem_cpp.Base.{
  ℕ, ◌+◌, ◌-◌, ◌*◌, ◌≤◌, ◌≡◌, refl, ap, ap₂, sym, ◌∙◌, Bool, true, false, ◌&&◌, ◌||◌, not, List, [],
  ◌∷◌, All, All-take, All-drop, length, take, drop, get_or, ltb, and_left, and_right, ◌==◌, ==_iff,
  if◌then◌else◌, Bool-cases, inl, inr, arith,
}
use dlms_cosem_cpp.Base.Bits.{IsByte, bit_xor-lt}
use dlms_cosem_cpp.Core.{Result, ok, err, stuck}
use dlms_cosem_cpp.ByteBuffer.{
  ByteBuffer, Reader, ◌>>=◌, resume, of_bytes, read_u8, read_u16, set_position,
}
use dlms_cosem_cpp.Hdlc.Escape.{hdlc_unescape, hdlc_flag_byte, hdlc_escape_byte}
use dlms_cosem_cpp.Hdlc.Crc.{calculate}
use dlms_cosem_cpp.Hdlc.Crc.Bitwise.{crc_x25, calculate-crc_x25}
use dlms_cosem_cpp.Hdlc.Control.{
  FrameFormat, ControlField, FrameType, from_byte, read_format, format_of,
}
use dlms_cosem_cpp.Hdlc.Frame.{
  HdlcFrame, has_hcs, skip_hcs, finish_frame, after_format, parse_content, from_bytes,
}

unfoldable KeepsBytes {ℓ} : {A : Type ℓ} → Reader A → Type 0
KeepsBytes m = (b : ByteBuffer) → (m b).1.bytes ≡ b.bytes

-- The last two bytes are the check sequence of those before them.
abbrev HasFcs : List ℕ → Type 0
HasFcs xs =
    calculate (take (length xs - 2) xs) true
    ≡ (get_or xs (length xs - 2) 0, get_or xs (length xs - 1) 0)

abbrev Checks {ℓ} : {A : Type ℓ} → Reader A → Type ℓ
Checks {A = A} m = (b : ByteBuffer) (a : A) → (m b).0 ≡ ok a → HasFcs b.bytes

module _ {ℓ κ} {A : Type ℓ} {B : Type κ} where
  bind-KeepsBytes :
      (m : Reader A) (k : A → Reader B)
      → KeepsBytes m
      → ((a : A) → KeepsBytes (k a))
      → KeepsBytes (m >>= k)
  unfolding KeepsBytes
  bind-KeepsBytes m k hm hk b = go (m b) (hm b)
    where
      go : (r : Result A × ByteBuffer) → r.1.bytes ≡ b.bytes → (resume r.0 r.1 k).1.bytes ≡ b.bytes
      go (ok a, c) e = hk a c ∙ e
      go (err d, c) e = e
      go (stuck, c) e = e

  bind-Checks :
      (m : Reader A) (k : A → Reader B) → KeepsBytes m → ((a : A) → Checks (k a)) → Checks (m >>= k)
  unfolding KeepsBytes
  bind-Checks m k hm hk b = go (m b) (hm b)
    where
      go :
          (r : Result A × ByteBuffer)
          → r.1.bytes ≡ b.bytes
          → (x : B) → (resume r.0 r.1 k).0 ≡ ok x
          → HasFcs b.bytes
      go (ok a, c) e x h = rw (← e) (hk a c x h)
      go (err d, c) e x h = cc
      go (stuck, c) e x h = cc

read_u8-KeepsBytes : KeepsBytes read_u8
unfolding KeepsBytes read_u8
read_u8-KeepsBytes b = ground arith

read_u16-KeepsBytes : KeepsBytes read_u16
unfolding KeepsBytes read_u16
read_u16-KeepsBytes b = ground arith

if-KeepsBytes {ℓ} :
    {A : Type ℓ} (c : Bool) (m n : Reader A)
    → KeepsBytes m
    → KeepsBytes n
    → KeepsBytes (if c then m else n)
if-KeepsBytes true m n hm hn = hm
if-KeepsBytes false m n hm hn = hn

skip_hcs-KeepsBytes : (t : FrameType) → KeepsBytes (skip_hcs t)
unfolding KeepsBytes
skip_hcs-KeepsBytes t =
    if-KeepsBytes (has_hcs t) _ _ (bind-KeepsBytes read_u16 _ read_u16-KeepsBytes (λ _ c. refl))
      (λ b. refl)

format_of-KeepsBytes : (b0 b1 : ℕ) → KeepsBytes (format_of b0 b1)
unfolding KeepsBytes
format_of-KeepsBytes b0 b1 b = ground arith

read_format-KeepsBytes : KeepsBytes read_format
unfolding read_format
read_format-KeepsBytes =
    bind-KeepsBytes read_u8 _ read_u8-KeepsBytes
      λ b0. bind-KeepsBytes read_u8 _ read_u8-KeepsBytes λ b1. format_of-KeepsBytes b0 b1

finish_frame-Checks :
    (fmt : FrameFormat) (dest src : List ℕ) (control : ControlField)
    → Checks (finish_frame fmt dest src control)
finish_frame-Checks fmt dest src control b f h =
    let n = length b.bytes in
    let fcs = calculate (take (n - 2) b.bytes) true in
    let x = get_or b.bytes (n - 2) 0 in
    let y = get_or b.bytes (n - 1) 0 in
    elim (Bool-cases (fcs.0 == x && fcs.1 == y)) [
      | inl t ↦
          let first : fcs.0 ≡ x = (==_iff fcs.0 x).0 (and_left _ _ t) in
          let second : fcs.1 ≡ y = (==_iff fcs.1 y).0 (and_right _ _ t) in
          ap₂ (λ (s u : ℕ). (s, u)) first second
      | inr t ↦ cc
    ]

after_format-Checks : (fmt : FrameFormat) → Checks (after_format fmt)
unfolding set_position
after_format-Checks fmt b =
    bind-Checks read_u8 _ read_u8-KeepsBytes
      (λ c.
        bind-Checks (skip_hcs (from_byte c).type) _ (skip_hcs-KeepsBytes (from_byte c).type)
          λ _. finish_frame-Checks fmt _ _ (from_byte c))
      (set_position _ b)

parse_content-Checks : Checks parse_content
unfolding parse_content
parse_content-Checks = bind-Checks read_format _ read_format-KeepsBytes after_format-Checks

unescaped_bytes : (xs : List ℕ) → All IsByte xs → All IsByte (hdlc_unescape xs)
unfolding hdlc_unescape
unescaped_bytes [] h = h
unescaped_bytes (x ∷ []) h = h
unescaped_bytes (x ∷ (y ∷ ys)) h = elim (Bool-cases (x == hdlc_escape_byte)) [
  | inl e ↦ rw e (bit_xor-lt 8 y 0x20 h.1.0 (omega arith), unescaped_bytes ys h.1.1)
  | inr e ↦ rw e (h.0, unescaped_bytes (y ∷ ys) h.1)
]

-- A frame that `from_bytes` accepts stands between two flags in at least six bytes, and what is between
-- them, unescaped, ends with the CRC-16/X-25 of all that goes before, the high byte first.
pub from_bytes-accepted :
    (d : List ℕ) (f : HdlcFrame)
    → All IsByte d
    → from_bytes d ≡ ok f
    → let content = hdlc_unescape (take (length d - 2) (drop 1 d)) in
      let n = length content in
      (6 ≤ length d)
      × (get_or d 0 0 ≡ hdlc_flag_byte)
      × (get_or d (length d - 1) 0 ≡ hdlc_flag_byte)
      × (crc_x25 (take (n - 2) content) ≡ get_or content (n - 2) 0 * 256 + get_or content (n - 1) 0)
unfolding from_bytes
from_bytes-accepted d f bytes h =
    let n = length d in
    let content = hdlc_unescape (take (n - 2) (drop 1 d)) in
    let m = length content in
    elim (Bool-cases (
      ltb n 6
      || not (get_or d 0 0 == hdlc_flag_byte)
      || not (get_or d (n - 1) 0 == hdlc_flag_byte))) [
        | inl t ↦ cc
        | inr g ↦
            let parsed : (parse_content (of_bytes content)).0 ≡ ok f = cc in
            let fcs = parse_content-Checks (of_bytes content) f parsed in
            let crc =
              (calculate-crc_x25 (take (m - 2) content) (
                All-take IsByte (m - 2) content (
                  unescaped_bytes (take (n - 2) (drop 1 d))
                    (All-take IsByte (n - 2) (drop 1 d) (All-drop IsByte 1 d bytes))))).0 in
            let high = ap (λ (p : ℕ × ℕ). p.0) (sym crc ∙ fcs) in
            let low = ap (λ (p : ℕ × ℕ). p.1) (sym crc ∙ fcs) in
            (ground arith, ground arith, ground arith, omega (arith, high, low))
      ]
