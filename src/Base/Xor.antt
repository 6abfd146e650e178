-- ===== src/Base/Xor.antt =====
-- `^` and `&` on numbers made of a high and a low field.
use Prim.Native.Nat.{ℕ, zero, suc, ◌+◌, ◌*◌, ◌/◌, ◌^◌, ◌<◌, bit_and, bit_xor}
use mathlib.Core.Path.{◌≡◌, ap}
use native.Mathlib.Omega.{arith}
use native.Mathlib.Nat.{pow-suc}
use dlms_cosem_cpp.Base.Bits.{bit_and_digit, bit_xor_digit, bit_xor_self}

pub bit_xor-fields :
    (k a b u v : ℕ)
    → u < 2 ^ k
    → v < 2 ^ k
    → bit_xor (a * 2 ^ k + u) (b * 2 ^ k + v) ≡ bit_xor a b * 2 ^ k + bit_xor u v
bit_xor-fields zero a b zero zero p q =
    let ea : a * 2 ^ 0 + 0 ≡ a = omega arith in
    let eb : b * 2 ^ 0 + 0 ≡ b = omega arith in
    omega (
      arith,
      bit_xor_self 0,
      ap (λ (t : ℕ). bit_xor t (b * 2 ^ 0 + 0)) ea,
      ap (λ (t : ℕ). bit_xor a t) eb,
    )
bit_xor-fields zero a b (suc u) v p q = absurd (omega arith)
bit_xor-fields zero a b u (suc v) p q = absurd (omega arith)
bit_xor-fields (suc k) a b u v p q =
    let w = pow-suc 2 k in
    let ea : a * 2 ^ suc k ≡ 2 * (a * 2 ^ k) = omega (arith, ap (λ (t : ℕ). a * t) w) in
    let eb : b * 2 ^ suc k ≡ 2 * (b * 2 ^ k) = omega (arith, ap (λ (t : ℕ). b * t) w) in
    let ec : bit_xor a b * 2 ^ suc k ≡ 2 * (bit_xor a b * 2 ^ k) =
      omega (arith, ap (λ (t : ℕ). bit_xor a b * t) w) in
    let ha : (a * 2 ^ suc k + u) / 2 ≡ a * 2 ^ k + u / 2 = omega arith in
    let hb : (b * 2 ^ suc k + v) / 2 ≡ b * 2 ^ k + v / 2 = omega arith in
    omega (
      arith,
      bit_xor_digit (a * 2 ^ suc k + u) (b * 2 ^ suc k + v),
      ap (λ (t : ℕ). bit_xor t ((b * 2 ^ suc k + v) / 2)) ha,
      ap (λ (t : ℕ). bit_xor (a * 2 ^ k + u / 2) t) hb,
      bit_xor_digit u v,
      bit_xor-fields k a b (u / 2) (v / 2) (omega (arith, w)) (omega (arith, w)),
    )

pub bit_and-shifted : (k a b : ℕ) → bit_and (a * 2 ^ k) (b * 2 ^ k) ≡ bit_and a b * 2 ^ k
bit_and-shifted zero a b =
    let ea : a * 2 ^ 0 ≡ a = omega arith in
    let eb : b * 2 ^ 0 ≡ b = omega arith in
    omega (arith, ap (λ (t : ℕ). bit_and t (b * 2 ^ 0)) ea, ap (λ (t : ℕ). bit_and a t) eb)
bit_and-shifted (suc k) a b =
    let w = pow-suc 2 k in
    let ea : a * 2 ^ suc k ≡ 2 * (a * 2 ^ k) = omega (arith, ap (λ (t : ℕ). a * t) w) in
    let eb : b * 2 ^ suc k ≡ 2 * (b * 2 ^ k) = omega (arith, ap (λ (t : ℕ). b * t) w) in
    let ec : bit_and a b * 2 ^ suc k ≡ 2 * (bit_and a b * 2 ^ k) =
      omega (arith, ap (λ (t : ℕ). bit_and a b * t) w) in
    let ha : a * 2 ^ suc k / 2 ≡ a * 2 ^ k = omega arith in
    let hb : b * 2 ^ suc k / 2 ≡ b * 2 ^ k = omega arith in
    omega (
      arith,
      bit_and_digit (a * 2 ^ suc k) (b * 2 ^ suc k),
      ap (λ (t : ℕ). bit_and t (b * 2 ^ suc k / 2)) ha,
      ap (λ (t : ℕ). bit_and (a * 2 ^ k) t) hb,
      bit_and-shifted k a b,
    )
