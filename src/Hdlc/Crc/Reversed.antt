-- ===== src/Hdlc/Crc/Reversed.antt =====
-- Numbers with their bits in the opposite order, and the steps of a check sequence that is made one
-- bit at a time.
use dlms_cosem_cpp.Base.{
  ℕ, zero, suc, ◌+◌, ◌*◌, ◌/◌, ◌%◌, ◌^◌, ◌<◌, bit_xor, ◌≡◌, refl, ap, ap₂, sym, ◌∙◌, ◌⊎◌, inl, inr,
  ◌==◌, ltb, ltb→lt, if◌then◌else◌, arith,
}
use dlms_cosem_cpp.Base.Bits.{
  bit_xor_digit, bit_xor_assoc, zero-bit_xor, all_below→equal, all_below→holds, IsByte,
}
use dlms_cosem_cpp.Base.Xor.{bit_xor-fields}
use native.Mathlib.Nat.{pow-suc}
use dlms_cosem_cpp.Hdlc.Crc.{table, reverse_bits}

abbrev pub reflected_poly : ℕ
reflected_poly = 0x8408

unfoldable pub bit_step : ℕ → ℕ
bit_step r = if r % 2 == 0 then r / 2 else bit_xor (r / 2) reflected_poly

unfoldable pub bit_steps : ℕ → ℕ → ℕ
bit_steps zero r = r
bit_steps (suc n) r = bit_steps n (bit_step r)

-- The bits `0 … k - 1` of a number in the opposite order.
unfoldable pub reversed : ℕ → ℕ → ℕ
reversed zero b = 0
reversed (suc k) b = b % 2 * 2 ^ k + reversed k (b / 2)

parity : (b : ℕ) → b % 2 ≡ 0 ⊎ b % 2 ≡ 1
parity b = ground arith

pub reversed-lt : (k b : ℕ) → reversed k b < 2 ^ k
unfolding reversed
reversed-lt zero b = omega arith
reversed-lt (suc k) b = elim (parity b) [
  | inl e ↦ omega (arith, pow-suc 2 k, reversed-lt k (b / 2), ap (λ (t : ℕ). t * 2 ^ k) e)
  | inr e ↦ omega (arith, pow-suc 2 k, reversed-lt k (b / 2), ap (λ (t : ℕ). t * 2 ^ k) e)
]

pub reversed-bit_xor :
    (k a b : ℕ) → reversed k (bit_xor a b) ≡ bit_xor (reversed k a) (reversed k b)
unfolding reversed
reversed-bit_xor zero a b = sym (zero-bit_xor 0)
reversed-bit_xor (suc k) a b =
    let half : bit_xor a b / 2 ≡ bit_xor (a / 2) (b / 2) = omega (arith, bit_xor_digit a b) in
    let za : a % 2 / 2 ≡ 0 = omega arith in
    let zb : b % 2 / 2 ≡ 0 = omega arith in
    let zero_half : bit_xor (a % 2 / 2) (b % 2 / 2) ≡ 0 =
      ap₂ (λ s t. bit_xor s t) za zb ∙ zero-bit_xor 0 in
    let low : bit_xor a b % 2 ≡ bit_xor (a % 2) (b % 2) =
      omega (arith, bit_xor_digit a b, bit_xor_digit (a % 2) (b % 2), zero_half) in
    ap₂ (λ (s t : ℕ). s * 2 ^ k + reversed k t) low half
    ∙ ap (λ (t : ℕ). bit_xor (a % 2) (b % 2) * 2 ^ k + t) (reversed-bit_xor k (a / 2) (b / 2))
    ∙ sym (bit_xor-fields k (a % 2) (b % 2) _ _ (reversed-lt k (a / 2)) (reversed-lt k (b / 2)))

-- The bits above the `n` that are shifted out are added at the end.
bit_step-high :
    (m y b : ℕ) → bit_step (bit_xor (y * 2 ^ suc m) b) ≡ bit_xor (y * 2 ^ m) (bit_step b)
unfolding bit_step
bit_step-high m y b =
    let w : y * 2 ^ suc m ≡ 2 * (y * 2 ^ m) = omega (arith, ap (λ (t : ℕ). y * t) (pow-suc 2 m)) in
    let z : y * 2 ^ suc m / 2 ≡ y * 2 ^ m = omega arith in
    let half : bit_xor (y * 2 ^ suc m) b / 2 ≡ bit_xor (y * 2 ^ m) (b / 2) =
      omega (arith, bit_xor_digit (y * 2 ^ suc m) b, ap (λ (t : ℕ). bit_xor t (b / 2)) z) in
    let low : bit_xor (y * 2 ^ suc m) b % 2 ≡ b % 2 =
      omega (arith, bit_xor_digit (y * 2 ^ suc m) b) in
    rw (half, low)
      (elim (parity b) [
        | inl e ↦ rw e refl
        | inr e ↦ rw e (bit_xor_assoc (y * 2 ^ m) (b / 2) reflected_poly)
      ])

pub bit_steps-high : (n y b : ℕ) → bit_steps n (bit_xor (y * 2 ^ n) b) ≡ bit_xor y (bit_steps n b)
unfolding bit_steps
bit_steps-high zero y b = let e : y * 2 ^ 0 ≡ y = omega arith in ap (λ (t : ℕ). bit_xor t b) e
bit_steps-high (suc n) y b =
    ap (λ (t : ℕ). bit_steps n t) (bit_step-high n y b) ∙ bit_steps-high n y (bit_step b)

abbrev pub bits : ℕ → ℕ
bits b = reversed 8 b

-- The register of `calculate` with its sixteen bits in the opposite order.
abbrev pub mirror : ℕ → ℕ
mirror crc = bits (crc % 256) * 256 + bits (crc / 256)

pub reverse_bits-bits : (b : ℕ) → IsByte b → reverse_bits b ≡ bits b
unfolding reverse_bits reversed
reverse_bits-bits b p = all_below→equal 256 reverse_bits (reversed 8) b refl p

pub bits-twice : (b : ℕ) → IsByte b → bits (bits b) ≡ b
unfolding reversed
bits-twice b p = all_below→equal 256 (λ i. reversed 8 (reversed 8 i)) (λ i. i) b refl p

pub table-lt : (i : ℕ) → IsByte i → table i < 2 ^ 16
unfolding table
table-lt i p =
    ltb→lt (table i) (2 ^ 16) (all_below→holds 256 (λ i. ltb (table i) (2 ^ 16)) i refl p)

pub table-bit_steps : (i : ℕ) → IsByte i → mirror (table i) ≡ bit_steps 8 (bits i)
unfolding table reversed bit_steps bit_step
table-bit_steps i p =
    all_below→equal 256 (λ i. mirror (table i)) (λ i. bit_steps 8 (bits i)) i refl p
