-- ===== src/Obis/Order.antt =====
-- include/dlms/core/obis.hpp: the bytes of a code and the order of codes.
use mathlib.Core.Path.{subst}
use native.Mathlib.Decide.{dec_lt}
use dlms_cosem_cpp.Base.{
  ℕ, ◌+◌, ◌≡◌, refl, arith, true, List, [], ◌∷◌, ◌++◌, length, le→ltb, ltb, ◌==◌, ◌*◌, ◌<◌, sym,
  All,
}
use dlms_cosem_cpp.Base.Bits.{IsByte}
use dlms_cosem_cpp.Core.{ok}
use dlms_cosem_cpp.Obis.{
  obis_size, ObisCode, obis_of, to_array, array_less, array_equal, obis_less, obis_equal,
}

-- A code comes back from its six bytes, whatever follows them.
pub obis_of-to_array : (o : ObisCode) (tail : List ℕ) → obis_of (to_array o ++ tail) ≡ ok o
unfolding obis_of to_array
obis_of-to_array o tail = rw (le→ltb (length (to_array o ++ tail)) obis_size (omega arith)) refl

-- Digits in base 256 behind the number `n`, the first digit the highest.
abbrev pub value : ℕ → List ℕ → ℕ
value n [] = n
value n (x ∷ xs) = value (n * 256 + x) xs

value-lt :
    (m n : ℕ) (xs ys : List ℕ)
    → All IsByte xs
    → All IsByte ys
    → length xs ≡ length ys
    → m < n
    → value m xs < value n ys
value-lt m n [] [] h k e lt = lt
value-lt m n [] (y ∷ ys) h k e lt = absurd (omega arith)
value-lt m n (x ∷ xs) [] h k e lt = absurd (omega arith)
value-lt m n (x ∷ xs) (y ∷ ys) (hx, h) (hy, k) e lt =
    value-lt (m * 256 + x) (n * 256 + y) xs ys h k (omega arith) (omega arith)

-- The orders of lists of one length and of their numbers agree.
array_less-value :
    (n : ℕ) (xs ys : List ℕ)
    → All IsByte xs
    → All IsByte ys
    → length xs ≡ length ys
    → (array_less xs ys ≡ ltb (value n xs) (value n ys))
      × (array_equal xs ys ≡ (value n xs == value n ys))
array_less-value n [] [] h k e = (ground arith, ground arith)
array_less-value n [] (y ∷ ys) h k e = absurd (omega arith)
array_less-value n (x ∷ xs) [] h k e = absurd (omega arith)
array_less-value n (x ∷ xs) (y ∷ ys) (hx, h) (hy, k) e =
    let size : length xs ≡ length ys = omega arith in
    let below = value-lt (n * 256 + x) (n * 256 + y) xs ys h k size in
    let above = value-lt (n * 256 + y) (n * 256 + x) ys xs k h (sym size) in
    let rest = array_less-value (n * 256 + x) xs ys h k size in
    elim (dec_lt x y) [
      | yes lt ↦ let wide = below (omega arith) in (ground arith, ground arith)
      | no ge ↦ elim (dec_lt y x) [
        | yes gt ↦ let wide = above (omega arith) in (ground arith, ground arith)
        | no le ↦
            let same : x ≡ y = omega arith in
            subst
              (λ z.
                (array_less (x ∷ xs) (z ∷ ys)
                  ≡ ltb (value (n * 256 + x) xs) (value (n * 256 + z) ys))
                × (array_equal (x ∷ xs) (z ∷ ys)
                    ≡ (value (n * 256 + x) xs == value (n * 256 + z) ys)))
              same (ground arith, ground arith)
      ]
    ]

-- The six fields of a code as one number, the first the highest.
abbrev pub number : ObisCode → ℕ
number o = value 0 (o.a ∷ o.b ∷ o.c ∷ o.d ∷ o.e ∷ o.f ∷ [])

abbrev pub IsBytes : ObisCode → Type 0
IsBytes o = All IsByte (o.a ∷ o.b ∷ o.c ∷ o.d ∷ o.e ∷ o.f ∷ [])

-- Codes of bytes are ordered, and equal, as the numbers that their six bytes make in base 256 with the
-- first byte the highest.
pub obis_less-number :
    (o p : ObisCode)
    → IsBytes o
    → IsBytes p
    → (obis_less o p ≡ ltb (number o) (number p)) × (obis_equal o p ≡ (number o == number p))
unfolding obis_less obis_equal to_array
obis_less-number o p h k = array_less-value 0 (to_array o) (to_array p) h k refl

array_less_trans :
    (xs ys zs : List ℕ)
    → array_less xs ys ≡ true
    → array_less ys zs ≡ true
    → array_less xs zs ≡ true
array_less_trans [] ys zs h k = cc
array_less_trans (x ∷ xs) [] zs h k = cc
array_less_trans (x ∷ xs) (y ∷ ys) [] h k = cc
array_less_trans (x ∷ xs) (y ∷ ys) (z ∷ zs) h k = ground (arith, array_less_trans xs ys zs)

-- The order of codes is transitive.
pub obis_less_trans :
    (o p q : ObisCode) → obis_less o p ≡ true → obis_less p q ≡ true → obis_less o q ≡ true
unfolding obis_less
obis_less_trans o p q h k = array_less_trans (to_array o) (to_array p) (to_array q) h k
