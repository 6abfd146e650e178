-- ===== src/Base/Bits.antt =====
-- The bit operations as arithmetic: one equation for the lowest digit of each, and from these the
-- laws of `|` on disjoint fields, of `&` with a low mask, and of `^`.
use Prim.Native.Nat.{ℕ, zero, suc, ◌+◌, ◌-◌, ◌*◌, ◌/◌, ◌%◌, ◌^◌, ◌≤◌, ◌<◌, min, max}
use Prim.Native.Nat.{bit_and, bit_or, bit_xor, differ, digits, bitwise}
use Prim.Native.Nat.{bit_and-bitwise, bit_or-bitwise, bit_xor-bitwise}
use mathlib.Core.Path.{◌≡◌, refl, ap, ◌∙◌}
use mathlib.Core.Bool.{Bool, true, ◌&&◌}
use native.Mathlib.Omega.{arith}
use dlms_cosem_cpp.Base.Tests.{◌==◌, ==_iff}
use native.Mathlib.Nat.{
  pow-suc, one-le-pow, le_refl, div-add-mod, mod-lt, mod-eq_of_lt, mul-add-mod_self_left,
}

infixl 75 ◌<<<◌ ◌>>>◌
abbrev pub ◌<<<◌ : ℕ → ℕ → ℕ
x <<< k = x * 2 ^ k

abbrev pub ◌>>>◌ : ℕ → ℕ → ℕ
x >>> k = x / 2 ^ k

-- The casts to uint8_t, uint16_t, uint32_t and uint64_t.
abbrev pub u8 : ℕ → ℕ
u8 n = n % 2 ^ 8

abbrev pub u16 : ℕ → ℕ
u16 n = n % 2 ^ 16

abbrev pub u32 : ℕ → ℕ
u32 n = n % 2 ^ 32

abbrev pub u64 : ℕ → ℕ
u64 n = n % 2 ^ 64

abbrev pub IsByte : ℕ → Type 0
IsByte b = b < 256

module _ (z : ℕ → ℕ) (f : ℕ → ℕ → ℕ) where
  -- The count of digits to go may be any that is large enough.
  digits_count : (n m a b : ℕ) → a ≤ n → a ≤ m → digits z f n a b ≡ digits z f m a b
  digits_count zero zero a b p q = refl
  digits_count zero (suc m) zero b p q = refl
  digits_count zero (suc m) (suc a) b p q = absurd (omega arith)
  digits_count (suc n) zero zero b p q = refl
  digits_count (suc n) zero (suc a) b p q = absurd (omega arith)
  digits_count (suc n) (suc m) zero b p q = refl
  digits_count (suc n) (suc m) (suc a) b p q =
      rw (digits_count n m (suc a / 2) (b / 2) (omega arith) (omega arith))

  lowest_digit :
      (a b : ℕ)
      → bitwise z f (suc a) b ≡ bitwise z f (suc a / 2) (b / 2) * 2 + f (suc a % 2) (b % 2)
  lowest_digit a b =
      omega (arith, digits_count a (suc a / 2) (suc a / 2) (b / 2) (omega arith) (le_refl _))

differ-digits : (x y : ℕ) → x < 2 → y < 2 → differ x y ≡ (x + y) % 2
differ-digits zero y p q = omega arith
differ-digits (suc zero) zero p q = refl
differ-digits (suc zero) (suc zero) p q = refl
differ-digits (suc zero) (suc (suc y)) p q = absurd (omega arith)
differ-digits (suc (suc x)) y p q = absurd (omega arith)

pub bit_and_digit : (a b : ℕ) → bit_and a b ≡ bit_and (a / 2) (b / 2) * 2 + min (a % 2) (b % 2)
bit_and_digit zero b = simp bit_and-bitwise (omega arith)
bit_and_digit (suc a) b = simp bit_and-bitwise (lowest_digit (λ y. 0) min a b)

pub bit_or_digit : (a b : ℕ) → bit_or a b ≡ bit_or (a / 2) (b / 2) * 2 + max (a % 2) (b % 2)
bit_or_digit zero b = simp bit_or-bitwise (omega arith)
bit_or_digit (suc a) b = simp bit_or-bitwise (lowest_digit (λ y. y) max a b)

pub bit_xor_digit : (a b : ℕ) → bit_xor a b ≡ bit_xor (a / 2) (b / 2) * 2 + (a + b) % 2
bit_xor_digit zero b = simp bit_xor-bitwise (omega arith)
bit_xor_digit (suc a) b = omega (
  arith,
  lowest_digit (λ y. y) differ a b,
  bit_xor-bitwise (suc a) b,
  bit_xor-bitwise (suc a / 2) (b / 2),
  differ-digits (suc a % 2) (b % 2) (omega arith) (omega arith),
)

-- Each law goes from the halves to the whole, by induction on a bound `n`.
bit_xor-comm_below : (n a b : ℕ) → a ≤ n → b ≤ n → bit_xor a b ≡ bit_xor b a
bit_xor-comm_below zero zero zero p q = refl
bit_xor-comm_below zero zero (suc b) p q = absurd (omega arith)
bit_xor-comm_below zero (suc a) b p q = absurd (omega arith)
bit_xor-comm_below (suc n) a b p q = omega (
  arith,
  bit_xor_digit a b,
  bit_xor_digit b a,
  bit_xor-comm_below n (a / 2) (b / 2) (omega arith) (omega arith),
)

pub bit_xor_comm : (a b : ℕ) → bit_xor a b ≡ bit_xor b a
bit_xor_comm a b = bit_xor-comm_below (a + b) a b (omega arith) (omega arith)

bit_xor-self_below : (n a : ℕ) → a ≤ n → bit_xor a a ≡ 0
bit_xor-self_below zero zero p = refl
bit_xor-self_below zero (suc a) p = absurd (omega arith)
bit_xor-self_below (suc n) a p =
    omega (arith, bit_xor_digit a a, bit_xor-self_below n (a / 2) (omega arith))

pub bit_xor_self : (a : ℕ) → bit_xor a a ≡ 0
bit_xor_self a = bit_xor-self_below a a (omega arith)

pub zero-bit_xor : (a : ℕ) → bit_xor 0 a ≡ a
zero-bit_xor a = bit_xor-bitwise 0 a

pub bit_xor-zero : (a : ℕ) → bit_xor a 0 ≡ a
bit_xor-zero a = bit_xor_comm a 0 ∙ zero-bit_xor a

bit_xor-assoc_below :
    (n a b c : ℕ) → a ≤ n → b ≤ n → c ≤ n → bit_xor (bit_xor a b) c ≡ bit_xor a (bit_xor b c)
bit_xor-assoc_below zero zero b c p q r = rw (zero-bit_xor, zero-bit_xor)
bit_xor-assoc_below zero (suc a) b c p q r = absurd (omega arith)
bit_xor-assoc_below (suc n) a b c p q r =
    let ab : bit_xor a b / 2 ≡ bit_xor (a / 2) (b / 2) = omega (arith, bit_xor_digit a b) in
    let bc : bit_xor b c / 2 ≡ bit_xor (b / 2) (c / 2) = omega (arith, bit_xor_digit b c) in
    omega (
      arith,
      bit_xor_digit (bit_xor a b) c,
      bit_xor_digit a (bit_xor b c),
      bit_xor_digit a b,
      bit_xor_digit b c,
      ap (λ (t : ℕ). bit_xor t (c / 2)) ab,
      ap (λ (t : ℕ). bit_xor (a / 2) t) bc,
      bit_xor-assoc_below n (a / 2) (b / 2) (c / 2) (omega arith) (omega arith) (omega arith),
    )

pub bit_xor_assoc : (a b c : ℕ) → bit_xor (bit_xor a b) c ≡ bit_xor a (bit_xor b c)
bit_xor_assoc a b c =
    bit_xor-assoc_below (a + b + c) a b c (omega arith) (omega arith) (omega arith)

-- A mask that is applied twice is gone.
pub bit_xor_cancel : (a b : ℕ) → bit_xor (bit_xor a b) b ≡ a
bit_xor_cancel a b = rw (bit_xor_assoc, bit_xor_self) (bit_xor-zero a)

pub bit_xor_cancel_left : (a b : ℕ) → bit_xor a (bit_xor a b) ≡ b
bit_xor_cancel_left a b = rw (← bit_xor_assoc a a b, bit_xor_self) (zero-bit_xor b)

two-pow-suc : (k : ℕ) → 2 ^ suc k ≡ 2 ^ k * 2
two-pow-suc k = pow-suc 2 k

pub bit_xor-lt : (k a b : ℕ) → a < 2 ^ k → b < 2 ^ k → bit_xor a b < 2 ^ k
bit_xor-lt zero zero zero p q = omega (arith, bit_xor_self 0)
bit_xor-lt zero zero (suc b) p q = absurd (omega arith)
bit_xor-lt zero (suc a) b p q = absurd (omega arith)
bit_xor-lt (suc k) a b p q = omega (
  arith,
  two-pow-suc k,
  bit_xor_digit a b,
  bit_xor-lt k (a / 2) (b / 2) (omega (arith, two-pow-suc k)) (omega (arith, two-pow-suc k)),
)

pub bit_or-lt : (k a b : ℕ) → a < 2 ^ k → b < 2 ^ k → bit_or a b < 2 ^ k
bit_or-lt zero zero zero p q = omega (arith, bit_or-bitwise 0 0)
bit_or-lt zero zero (suc b) p q = absurd (omega arith)
bit_or-lt zero (suc a) b p q = absurd (omega arith)
bit_or-lt (suc k) a b p q = omega (
  arith,
  two-pow-suc k,
  bit_or_digit a b,
  bit_or-lt k (a / 2) (b / 2) (omega (arith, two-pow-suc k)) (omega (arith, two-pow-suc k)),
)

bit_or-zero_below : (n a : ℕ) → a ≤ n → bit_or a 0 ≡ a
bit_or-zero_below zero zero p = refl
bit_or-zero_below zero (suc a) p = absurd (omega arith)
bit_or-zero_below (suc n) a p =
    omega (arith, bit_or_digit a 0, bit_or-zero_below n (a / 2) (omega arith))

pub bit_or-zero : (a : ℕ) → bit_or a 0 ≡ a
bit_or-zero a = bit_or-zero_below a a (omega arith)

bit_or-comm_below : (n a b : ℕ) → a ≤ n → b ≤ n → bit_or a b ≡ bit_or b a
bit_or-comm_below zero zero zero p q = refl
bit_or-comm_below zero zero (suc b) p q = absurd (omega arith)
bit_or-comm_below zero (suc a) b p q = absurd (omega arith)
bit_or-comm_below (suc n) a b p q = omega (
  arith,
  bit_or_digit a b,
  bit_or_digit b a,
  bit_or-comm_below n (a / 2) (b / 2) (omega arith) (omega arith),
)

pub bit_or_comm : (a b : ℕ) → bit_or a b ≡ bit_or b a
bit_or_comm a b = bit_or-comm_below (a + b) a b (omega arith) (omega arith)

bit_and-zero_below : (n a : ℕ) → a ≤ n → bit_and a 0 ≡ 0
bit_and-zero_below zero zero p = refl
bit_and-zero_below zero (suc a) p = absurd (omega arith)
bit_and-zero_below (suc n) a p =
    omega (arith, bit_and_digit a 0, bit_and-zero_below n (a / 2) (omega arith))

-- `(q << k) | r` is a sum where `r` fits into `k` bits.
pub bit_or-fields : (k q r : ℕ) → r < 2 ^ k → bit_or (q <<< k) r ≡ q * 2 ^ k + r
bit_or-fields zero q zero h = omega (arith, bit_or-zero (q * 2 ^ 0))
bit_or-fields zero q (suc r) h = absurd (omega arith)
bit_or-fields (suc k) q r h =
    let e : q * 2 ^ suc k ≡ 2 * (q * 2 ^ k) =
      omega (arith, ap (λ (t : ℕ). q * t) (two-pow-suc k)) in
    let half : q * 2 ^ suc k / 2 ≡ q * 2 ^ k = omega arith in
    omega (
      arith,
      bit_or_digit (q * 2 ^ suc k) r,
      ap (λ (t : ℕ). bit_or t (r / 2)) half,
      bit_or-fields k q (r / 2) (omega (arith, two-pow-suc k)),
    )

mod-double : (m a : ℕ) → 0 < m → a % (m * 2) ≡ a / 2 % m * 2 + a % 2
mod-double m a h =
    let q : ℕ = a / 2 / m in
    let r : ℕ = a / 2 % m * 2 + a % 2 in
    let parts : a ≡ m * 2 * q + r = omega (arith, div-add-mod (a / 2) m, div-add-mod a 2) in
    let small : r < m * 2 = omega (arith, mod-lt (a / 2) h) in
    ap (λ (t : ℕ). t % (m * 2)) parts ∙ mul-add-mod_self_left (m * 2) q r ∙ mod-eq_of_lt small

-- Four bytes put together, the highest first.
pub or_bytes :
    (a b c d : ℕ)
    → b < 256
    → c < 256
    → d < 256
    → bit_or (bit_or (bit_or (a <<< 24) (b <<< 16)) (c <<< 8)) d
      ≡ a * 2 ^ 24 + b * 2 ^ 16 + c * 2 ^ 8 + d
or_bytes a b c d hb hc hd =
    let ab : bit_or (a <<< 24) (b <<< 16) ≡ (a * 2 ^ 8 + b) <<< 16 =
      bit_or-fields 24 a (b <<< 16) (omega arith) ∙ omega arith in
    let abc : bit_or ((a * 2 ^ 8 + b) <<< 16) (c <<< 8) ≡ (a * 2 ^ 16 + b * 2 ^ 8 + c) <<< 8 =
      bit_or-fields 16 (a * 2 ^ 8 + b) (c <<< 8) (omega arith) ∙ omega arith in
    rw (ab, abc) (bit_or-fields 8 (a * 2 ^ 16 + b * 2 ^ 8 + c) d (omega arith) ∙ omega arith)

-- A mask of `k` low bits is the remainder by `2 ^ k`.
pub bit_and-mask : (k a : ℕ) → bit_and a (2 ^ k - 1) ≡ a % 2 ^ k
bit_and-mask zero a = omega (arith, bit_and-zero_below a a (omega arith))
bit_and-mask (suc k) a =
    let pos = one-le-pow k 2 (omega arith) in
    let odd : (2 ^ suc k - 1) / 2 ≡ 2 ^ k - 1 = omega (arith, two-pow-suc k) in
    omega (
      arith,
      bit_and_digit a (2 ^ suc k - 1),
      two-pow-suc k,
      ap (λ (t : ℕ). bit_and (a / 2) t) odd,
      ap (λ (t : ℕ). a % t) (two-pow-suc k),
      mod-double (2 ^ k) a pos,
      bit_and-mask k (a / 2),
    )

-- Over a small range a law is checked at every value, by evaluation.
abbrev pub all_below : ℕ → (ℕ → Bool) → Bool
all_below zero p = true
all_below (suc n) p = p n && all_below n p

pub all_below→holds : (n : ℕ) (p : ℕ → Bool) (x : ℕ) → all_below n p ≡ true → x < n → p x ≡ true
all_below→holds zero p x h l = absurd (omega arith)
all_below→holds (suc n) p x h l = ground (arith, all_below→holds n p x)

pub all_below→equal :
    (n : ℕ) (f g : ℕ → ℕ) (x : ℕ) → all_below n (λ i. f i == g i) ≡ true → x < n → f x ≡ g x
all_below→equal n f g x h l = (==_iff (f x) (g x)).0 (all_below→holds n (λ i. f i == g i) x h l)
