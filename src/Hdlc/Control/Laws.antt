-- ===== src/Hdlc/Control/Laws.antt =====
-- The control field and the format field of src/dlms/hdlc/frame.cpp, there and back.
use dlms_cosem_cpp.Base.{
  ℕ, ◌<◌, ◌≡◌, ◌≢◌, refl, sym, ap, ◌∙◌, arith, Bool, true, false, not, ◌&&◌, ◌==◌, if◌then◌else◌,
}
use dlms_cosem_cpp.Base.Bits.{all_below, all_below→holds}
use dlms_cosem_cpp.Hdlc.Control.{
  FrameType, snrm, ua, rr, information, disconnect, ui, unknown, ControlField, from_byte, to_byte,
  control_byte,
}

-- A control field of a known type is what its byte says, but for `raw`, which holds that byte;
-- a supervisory or unnumbered frame carries no send number, and only an information frame and RR
-- carry a receive number.
abbrev pub carries_recv : FrameType → Bool
carries_recv information = true
carries_recv rr = true
carries_recv _ = false

abbrev pub carries_send : FrameType → Bool
carries_send information = true
carries_send _ = false

-- What is left of a control field after it was written and read.
abbrev pub as_read : ControlField → ControlField
as_read c = record c {
  raw = to_byte c;
  send_seq = if carries_send c.type then c.send_seq else 0;
  recv_seq = if carries_recv c.type then c.recv_seq else 0;
}

-- Equality of control fields as a test.
abbrev type_code : FrameType → ℕ
type_code snrm = 0
type_code ua = 1
type_code rr = 2
type_code information = 3
type_code disconnect = 4
type_code ui = 5
type_code unknown = 6

abbrev of_code : ℕ → FrameType
of_code n =
    if n == 0
    then snrm
    else (if n == 1
        then ua
        else (if n == 2
            then rr
            else (if n == 3
                then information
                else (if n == 4 then disconnect else (if n == 5 then ui else unknown)))))

of_code-type_code : (t : FrameType) → of_code (type_code t) ≡ t
of_code-type_code snrm = refl
of_code-type_code ua = refl
of_code-type_code rr = refl
of_code-type_code information = refl
of_code-type_code disconnect = refl
of_code-type_code ui = refl
of_code-type_code unknown = refl

abbrev same_bool : Bool → Bool → Bool
same_bool true b = b
same_bool false b = not b

abbrev same_control : ControlField → ControlField → Bool
same_control a b =
    a.raw == b.raw
    && type_code a.type == type_code b.type
    && a.send_seq == b.send_seq
    && a.recv_seq == b.recv_seq
    && same_bool a.final b.final

same_control→eq : (a b : ControlField) → same_control a b ≡ true → a ≡ b
same_control→eq a b h =
    let code : type_code a.type ≡ type_code b.type = ground arith in
    let kind : a.type ≡ b.type =
      sym (of_code-type_code a.type) ∙ ap of_code code ∙ of_code-type_code b.type in
    ground arith

abbrev control_of : FrameType → ℕ → ℕ → Bool → ControlField
control_of t s r f = record { raw = 0; type = t; send_seq = s; recv_seq = r; final = f }

comes_back : FrameType → ℕ → ℕ → Bool → Bool
unfolding from_byte to_byte
comes_back t s r f = let c = control_of t s r f in same_control (from_byte (to_byte c)) (as_read c)

abbrev row : FrameType → ℕ → Bool
row t s = all_below 8 λ r. comes_back t s r true && comes_back t s r false

all_come_back : FrameType → Bool
unfolding comes_back
all_come_back t = all_below 8 (row t)

-- Every control field of a known type, with sequence numbers of three bits, is checked.
all_come_back_lem : (t : FrameType) → t ≢ unknown → all_come_back t ≡ true
unfolding all_come_back
all_come_back_lem snrm h = refl
all_come_back_lem ua h = refl
all_come_back_lem rr h = refl
all_come_back_lem information h = refl
all_come_back_lem disconnect h = refl
all_come_back_lem ui h = refl
all_come_back_lem unknown h = absurd (h refl)

comes_back_lem :
    (t : FrameType) (s r : ℕ) (f : Bool) → t ≢ unknown → s < 8 → r < 8 → comes_back t s r f ≡ true
unfolding all_come_back
comes_back_lem t s r f known hs hr = pick f
  where
    both : (comes_back t s r true && comes_back t s r false) ≡ true
    both =
        all_below→holds 8 (λ r. comes_back t s r true && comes_back t s r false) r
          (all_below→holds 8 (row t) s (unfold all_come_back in all_come_back_lem t known) hs) hr

    pick : (f : Bool) → comes_back t s r f ≡ true
    pick true = ground (arith, both)
    pick false = ground (arith, both)

-- `raw` has no part in the byte that is written.
control_byte-raw :
    (t : FrameType) (c : ControlField) → control_byte t c ≡ control_byte t (record c { raw = 0 })
unfolding control_byte
control_byte-raw snrm c = refl
control_byte-raw _ c = refl

to_byte-raw : (c : ControlField) → to_byte c ≡ to_byte (record c { raw = 0 })
unfolding to_byte
to_byte-raw c = control_byte-raw c.type c

-- A control field of a known type, with sequence numbers below 8, is read back from its byte: with
-- that byte as `raw`, and without the sequence numbers that its type does not carry.
pub from_byte-to_byte :
    (c : ControlField)
    → c.type ≢ unknown
    → c.send_seq < 8
    → c.recv_seq < 8
    → from_byte (to_byte c) ≡ as_read c
from_byte-to_byte c known hs hr =
    let c' = control_of c.type c.send_seq c.recv_seq c.final in
    ap from_byte (to_byte-raw c)
    ∙ same_control→eq (from_byte (to_byte c')) (as_read c')
        (unfold comes_back in comes_back_lem c.type c.send_seq c.recv_seq c.final known hs hr)
    ∙ ap (λ (b : ℕ). record (as_read c') { raw = b }) (sym (to_byte-raw c))
