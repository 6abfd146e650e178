-- ===== src/Base/Int.antt =====
-- Signed integers over the native numbers, and the casts between them and two's complement words.
-- `m` is the number of words of a width, 2 ^ w.
use Prim.Native.Nat.{ℕ, ◌-◌, ◌/◌, ◌%◌, ◌<◌}
use mathlib.Core.Path.{◌≡◌}
use native.Mathlib.Omega.{arith}
use native.Mathlib.Nat.{mod-eq_of_lt}
use dlms_cosem_cpp.Base.Tests.{ltb, if◌then◌else◌}

-- `negsuc n` is -(n + 1).
pub data ℤ : Type 0 where
  pos : ℕ → ℤ
  negsuc : ℕ → ℤ

-- `static_cast` to the unsigned type: the remainder by `m`.
abbrev pub to_unsigned : ℕ → ℤ → ℕ
to_unsigned m (pos n) = n % m
to_unsigned m (negsuc n) = m - 1 - n % m

-- `static_cast` of a word to the signed type of its width.
abbrev pub to_signed : ℕ → ℕ → ℤ
to_signed m n = if ltb n (m / 2) then pos n else negsuc (m - 1 - n)

-- The integers of the signed type.
abbrev pub IsSigned : ℕ → ℤ → Type 0
IsSigned m (pos n) = n < m / 2
IsSigned m (negsuc n) = n < m / 2

pub to_signed-to_unsigned : (m : ℕ) (z : ℤ) → IsSigned m z → to_signed m (to_unsigned m z) ≡ z
to_signed-to_unsigned m (pos n) h =
    let e : n % m ≡ n = mod-eq_of_lt (omega arith) in rw e (ground arith)
to_signed-to_unsigned m (negsuc n) h =
    let e : n % m ≡ n = mod-eq_of_lt (omega arith) in rw e (ground arith)

pub to_unsigned-lt : (m : ℕ) (z : ℤ) → IsSigned m z → to_unsigned m z < m
to_unsigned-lt m (pos n) h = let e : n % m ≡ n = mod-eq_of_lt (omega arith) in omega (arith, e)
to_unsigned-lt m (negsuc n) h = omega arith
