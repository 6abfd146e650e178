-- ===== src/Hdlc/Crc/Bitwise.antt =====
-- The check sequence against the definition of CRC-16/X-25, one bit at a time: the lowest bit first,
-- the polynomial 0x8408, all ones at the start and all bits inverted at the end.
use dlms_cosem_cpp.Base.{
  All, ℕ, ◌+◌, ◌*◌, ◌/◌, ◌%◌, ◌^◌, ◌<◌, bit_and, bit_xor, ◌≡◌, refl, ap, ap₂, sym, ◌∙◌, true, false,
  List, [], ◌∷◌, arith,
}
use dlms_cosem_cpp.Base.Bits.{
  bit_xor_assoc, bit_xor-lt, bit_xor-zero, zero-bit_xor, bit_and-mask, IsByte,
}
use dlms_cosem_cpp.Base.Xor.{bit_xor-fields, bit_and-shifted}
use dlms_cosem_cpp.Hdlc.Crc.{
  init, table, reverse_bits, reverse_bytes, crc_step, crc_loop, calculate,
}
use dlms_cosem_cpp.Hdlc.Crc.Reversed.{
  bit_steps, reversed, bits, mirror, reversed-lt, reversed-bit_xor, bit_steps-high,
  reverse_bits-bits, bits-twice, table-lt, table-bit_steps,
}

unfoldable pub bitwise_loop : ℕ → List ℕ → ℕ
bitwise_loop r [] = r
bitwise_loop r (x ∷ xs) = bitwise_loop (bit_steps 8 (bit_xor r x)) xs

unfoldable pub crc_x25 : List ℕ → ℕ
crc_x25 d = bit_xor (bitwise_loop 0xFFFF d) 0xFFFF

-- One byte of the code's loop, in fields of a byte each.
crc_step-fields :
    (h l y : ℕ)
    → IsByte h
    → IsByte l
    → IsByte y
    → let t = table (bit_xor h y) in crc_step (h * 256 + l) y ≡ bit_xor l (t / 256) * 256 + t % 256
unfolding crc_step
crc_step-fields h l y ph pl py =
    let t : ℕ = table (bit_xor h y) in
    let pt : t < 2 ^ 16 = table-lt (bit_xor h y) (bit_xor-lt 8 h y ph py) in
    let eh : bit_and ((h * 256 + l) / 256) 255 ≡ h =
      bit_and-mask 8 ((h * 256 + l) / 256) ∙ omega arith in
    let el : bit_and ((h * 256 + l) * 256) 65280 ≡ l * 256 =
      bit_and-shifted 8 (h * 256 + l) 255
      ∙ ap (λ (s : ℕ). s * 256) (bit_and-mask 8 (h * 256 + l))
      ∙ omega arith in
    let et : t ≡ t / 256 * 256 + t % 256 = omega arith in
    ap₂ (λ (u v : ℕ). bit_xor u (table (bit_xor v y))) el eh
    ∙ ap₂ (λ (u v : ℕ). bit_xor u v) (omega arith) et
    ∙ bit_xor-fields 8 l (t / 256) 0 (t % 256) (omega arith) (omega arith)
    ∙ ap (λ (s : ℕ). bit_xor l (t / 256) * 256 + s) (zero-bit_xor (t % 256))

mirror-fields : (h l : ℕ) → IsByte l → mirror (h * 256 + l) ≡ bits l * 256 + bits h
mirror-fields h l pl =
    let el : (h * 256 + l) % 256 ≡ l = omega arith in
    let eh : (h * 256 + l) / 256 ≡ h = omega arith in ap₂ (λ (s t : ℕ). bits s * 256 + bits t) el eh

bits-lt : (b : ℕ) → IsByte (bits b)
bits-lt b = reversed-lt 8 b

split_high : (a b : ℕ) → IsByte b → a * 256 + b ≡ bit_xor (a * 256) b
split_high a b p =
    let ea : a * 256 ≡ a * 2 ^ 8 + 0 = omega arith in
    let eb : b ≡ 0 * 2 ^ 8 + b = omega arith in
    sym (
      ap₂ (λ (s t : ℕ). bit_xor s t) ea eb
      ∙ bit_xor-fields 8 a 0 0 b (omega arith) p
      ∙ ap₂ (λ (s t : ℕ). s * 256 + t) (bit_xor-zero a) (zero-bit_xor b))

add_low : (a u v : ℕ) → IsByte a → IsByte v → bit_xor a (u * 256 + v) ≡ u * 256 + bit_xor a v
add_low a u v pa pv =
    let ea : a ≡ 0 * 2 ^ 8 + a = omega arith in
    ap (λ (s : ℕ). bit_xor s (u * 256 + v)) ea
    ∙ bit_xor-fields 8 0 u a v pa pv
    ∙ ap (λ (s : ℕ). s * 256 + bit_xor a v) (zero-bit_xor u)

-- A byte of the code's loop is eight bits of the definition.
crc_step-mirror :
    (h l x : ℕ)
    → IsByte h
    → IsByte l
    → IsByte x
    → mirror (crc_step (h * 256 + l) (bits x)) ≡ bit_steps 8 (bit_xor (mirror (h * 256 + l)) x)
crc_step-mirror h l x ph pl px =
    let y : ℕ = bit_xor h (bits x) in
    let py : IsByte y = bit_xor-lt 8 h (bits x) ph (bits-lt x) in
    let t : ℕ = table y in
    let added : bit_xor (bits h) x ≡ bits y =
      sym (reversed-bit_xor 8 h (bits x) ∙ ap (λ (s : ℕ). bit_xor (bits h) s) (bits-twice x px)) in
    let code : mirror (crc_step (h * 256 + l) (bits x))
        ≡ bits (t % 256) * 256 + bit_xor (bits l) (bits (t / 256)) =
      ap mirror (crc_step-fields h l (bits x) ph pl (bits-lt x))
      ∙ mirror-fields (bit_xor l (t / 256)) (t % 256) (omega arith)
      ∙ ap (λ (s : ℕ). bits (t % 256) * 256 + s) (reversed-bit_xor 8 l (t / 256)) in
    let start : bit_xor (mirror (h * 256 + l)) x ≡ bit_xor (bits l * 2 ^ 8) (bits y) =
      ap (λ (s : ℕ). bit_xor s x) (mirror-fields h l pl ∙ split_high (bits l) (bits h) (bits-lt h))
      ∙ bit_xor_assoc (bits l * 256) (bits h) x
      ∙ ap (λ (s : ℕ). bit_xor (bits l * 256) s) added in
    let definition : bit_steps 8 (bit_xor (mirror (h * 256 + l)) x) ≡ bit_xor (bits l) (mirror t) =
      ap (λ (s : ℕ). bit_steps 8 s) start
      ∙ bit_steps-high 8 (bits l) (bits y)
      ∙ ap (λ (s : ℕ). bit_xor (bits l) s) (sym (table-bit_steps y py)) in
    code
    ∙ sym (add_low (bits l) (bits (t % 256)) (bits (t / 256)) (bits-lt l) (bits-lt (t / 256)))
    ∙ sym definition

-- The register stays in sixteen bits.
crc_step-lt : (crc y : ℕ) → crc < 2 ^ 16 → IsByte y → crc_step crc y < 2 ^ 16
crc_step-lt crc y p py =
    let h : ℕ = crc / 256 in
    let l : ℕ = crc % 256 in
    let t : ℕ = table (bit_xor h y) in
    let pt : t < 2 ^ 16 = table-lt (bit_xor h y) (bit_xor-lt 8 h y (omega arith) py) in
    let parts : crc ≡ h * 256 + l = omega arith in
    let e : crc_step crc y ≡ bit_xor l (t / 256) * 256 + t % 256 =
      ap (λ (s : ℕ). crc_step s y) parts ∙ crc_step-fields h l y (omega arith) (omega arith) py in
    omega (arith, e, bit_xor-lt 8 l (t / 256) (omega arith) (omega arith))

crc_loop-mirror :
    (d : List ℕ) (crc : ℕ)
    → All IsByte d
    → crc < 2 ^ 16
    → (mirror (crc_loop crc (reverse_bytes d)) ≡ bitwise_loop (mirror crc) d)
      × (crc_loop crc (reverse_bytes d) < 2 ^ 16)
unfolding crc_loop reverse_bytes bitwise_loop
crc_loop-mirror [] crc ps p = (refl, p)
crc_loop-mirror (x ∷ d) crc ps p =
    let parts : crc ≡ crc / 256 * 256 + crc % 256 = omega arith in
    let e : reverse_bits x ≡ bits x = reverse_bits-bits x ps.0 in
    let rest =
      crc_loop-mirror d (crc_step crc (bits x)) ps.1 (crc_step-lt crc (bits x) p (bits-lt x)) in
    let one : mirror (crc_step crc (bits x)) ≡ bit_steps 8 (bit_xor (mirror crc) x) =
      ap (λ (s : ℕ). mirror (crc_step s (bits x))) parts
      ∙ crc_step-mirror (crc / 256) (crc % 256) x (omega arith) (omega arith) ps.0
      ∙ ap (λ (s : ℕ). bit_steps 8 (bit_xor (mirror s) x)) (sym parts) in
    rw e (rest.0 ∙ ap (λ (s : ℕ). bitwise_loop s d) one, rest.1)

inverted :
    (u v : ℕ)
    → IsByte u
    → IsByte v
    → bit_xor (u * 256 + v) 0xFFFF ≡ bit_xor u 0xFF * 256 + bit_xor v 0xFF
inverted u v pu pv = bit_xor-fields 8 u 255 v 255 pv (omega arith)

-- On bytes, `calculate` gives CRC-16/X-25, with the high byte where it says low and the low byte where
-- it says high.
pub calculate-crc_x25 :
    (d : List ℕ)
    → All IsByte d
    → (calculate d true ≡ (crc_x25 d / 256, crc_x25 d % 256))
      × (calculate d false ≡ (crc_x25 d % 256, crc_x25 d / 256))
unfolding calculate crc_x25 reversed
calculate-crc_x25 d ps =
    let crc : ℕ = crc_loop init (reverse_bytes d) in
    let loop = crc_loop-mirror d init ps (omega arith) in
    let p : crc < 2 ^ 16 = loop.1 in
    let u : ℕ = bits (crc % 256) in
    let v : ℕ = bits (crc / 256) in
    let pu : IsByte u = bits-lt (crc % 256) in
    let pv : IsByte v = bits-lt (crc / 256) in
    let low : bit_and crc 0xFF ≡ crc % 256 = bit_and-mask 8 crc in
    let high : bit_and (crc / 256) 0xFF ≡ crc / 256 = bit_and-mask 8 (crc / 256) ∙ omega arith in
    let eu : reverse_bits (bit_and crc 0xFF) ≡ u =
      ap reverse_bits low ∙ reverse_bits-bits (crc % 256) (omega arith) in
    let ev : reverse_bits (bit_and (crc / 256) 0xFF) ≡ v =
      ap reverse_bits high ∙ reverse_bits-bits (crc / 256) (omega arith) in
    let value : bit_xor (bitwise_loop 0xFFFF d) 0xFFFF ≡ bit_xor u 0xFF * 256 + bit_xor v 0xFF =
      ap (λ (s : ℕ). bit_xor s 0xFFFF) (sym loop.0) ∙ inverted u v pu pv in
    let small : bit_xor v 0xFF < 256 = bit_xor-lt 8 v 0xFF pv (omega arith) in
    let first : bit_xor (reverse_bits (bit_and crc 0xFF)) 0xFF
        ≡ bit_xor (bitwise_loop 0xFFFF d) 0xFFFF / 256 =
      ap (λ (s : ℕ). bit_xor s 0xFF) eu ∙ omega (arith, value) in
    let second : bit_xor (reverse_bits (bit_and (crc / 256) 0xFF)) 0xFF
        ≡ bit_xor (bitwise_loop 0xFFFF d) 0xFFFF % 256 =
      ap (λ (s : ℕ). bit_xor s 0xFF) ev ∙ omega (arith, value) in
    (ap₂ (λ (s t : ℕ). (s, t)) first second, ap₂ (λ (s t : ℕ). (s, t)) second first)
