-- ===== src/Obis/Text/RoundTrip.antt =====
-- include/dlms/core/obis.hpp: from_string against to_canonical.
use dlms_cosem_cpp.Base.{
  ℕ, suc, ◌+◌, ◌-◌, ◌*◌, ◌/◌, ◌%◌, ◌^◌, ◌≡◌, ◌<◌, refl, ap, ◌∙◌, sym, true, false, some, List, [],
  ◌∷◌, ◌++◌, append-nil, ltb, ◌==◌, Bool-cases, inl, inr, arith,
}
use dlms_cosem_cpp.Base.Int.{ℤ, pos}
use dlms_cosem_cpp.Base.Bits.{IsByte}
use dlms_cosem_cpp.Core.{ok}
use dlms_cosem_cpp.Obis.{ObisCode, to_array}
use dlms_cosem_cpp.Obis.Text.{
  is_space, is_digit, skip_spaces, digits, read_int, in_front, then_field, read_fields,
  check_fields, then_byte, from_string, decimal, to_canonical,
}

digits-digit :
    (n d : ℕ) (cs : List ℕ) → d < 10 → digits n ((0x30 + d) ∷ cs) ≡ digits (n * 10 + d) cs
unfolding digits
digits-digit n d cs h =
    let test : is_digit (0x30 + d) ≡ true = ground arith in
    let value : 0x30 + d - 0x30 ≡ d = omega arith in rw (test, value) refl

digits-stop : (n c : ℕ) (cs : List ℕ) → is_digit c ≡ false → digits n (c ∷ cs) ≡ (n, c ∷ cs)
unfolding digits
digits-stop n c cs h = rw h refl

skip_spaces-other : (c : ℕ) (cs : List ℕ) → is_space c ≡ false → skip_spaces (c ∷ cs) ≡ c ∷ cs
unfolding skip_spaces
skip_spaces-other c cs h = rw h refl

-- What follows a number: nothing, or a character that is no digit.
abbrev Ends : List ℕ → Type 0
Ends s = (n : ℕ) → digits n s ≡ (n, s)

read_int-digit :
    (d x : ℕ) (cs s : List ℕ)
    → d < 10
    → digits 0 ((0x30 + d) ∷ cs) ≡ (x, s)
    → IsByte x
    → read_int ((0x30 + d) ∷ cs) ≡ some (pos x, s)
unfolding read_int
read_int-digit d x cs s h e p =
    let here : is_space (0x30 + d) ≡ false = ground arith in
    let test : is_digit (0x30 + d) ≡ true = ground arith in
    let plus : (0x30 + d == 0x2B) ≡ false = ground arith in
    let dash : (0x30 + d == 0x2D) ≡ false = ground arith in
    let fits : ltb x (2 ^ 31) ≡ true = ground arith in
    rw (skip_spaces-other (0x30 + d) cs here, dash, plus, test, e, fits) refl

read_int-decimal :
    (x : ℕ) (s : List ℕ) → IsByte x → Ends s → read_int (decimal x ++ s) ≡ some (pos x, s)
unfolding decimal
read_int-decimal x s p ends =
    let stop : (y : ℕ) → y ≡ x → digits y s ≡ (x, s) = λ y e. ends y ∙ ap (λ (t : ℕ). (t, s)) e in
    elim (Bool-cases (ltb x 10)) [
      | inl t ↦
          let small : x < 10 = ground arith in
          rw t (read_int-digit x x s s small (digits-digit 0 x s small ∙ stop _ (omega arith)) p)
      | inr t ↦ elim (Bool-cases (ltb x 100)) [
        | inl u ↦
            let high : x / 10 < 10 = ground arith in
            let all =
              digits-digit 0 (x / 10) ((0x30 + x % 10) ∷ s) high
              ∙ digits-digit _ (x % 10) s (omega arith)
              ∙ stop _ (omega arith) in
            rw (t, u) (read_int-digit (x / 10) x _ s high all p)
        | inr u ↦
            let high : x / 100 < 10 = omega arith in
            let all =
              digits-digit 0 (x / 100) ((0x30 + x / 10 % 10) ∷ (0x30 + x % 10) ∷ s) high
              ∙ digits-digit _ (x / 10 % 10) ((0x30 + x % 10) ∷ s) (omega arith)
              ∙ digits-digit _ (x % 10) s (omega arith)
              ∙ stop _ (omega arith) in
            rw (t, u) (read_int-digit (x / 100) x _ s high all p)
      ]
    ]

-- A number and a separator, with more numbers to go.
read_fields-decimal :
    (n x c : ℕ) (rest : List ℕ)
    → IsByte x
    → is_space c ≡ false
    → is_digit c ≡ false
    → read_fields (suc (suc n)) (decimal x ++ (c ∷ rest))
      ≡ in_front (pos x) (read_fields (suc n) rest)
unfolding read_fields
read_fields-decimal n x c rest p here test =
    let number = read_int-decimal x (c ∷ rest) p (λ m. digits-stop m c rest test) in
    let more : (suc n == 0) ≡ false = ground arith in
    ap (λ r. then_field (suc n) r (read_fields (suc n))) number
    ∙ rw (more, skip_spaces-other c rest here) refl

read_fields-last : (x : ℕ) → IsByte x → read_fields 1 (decimal x) ≡ some (pos x ∷ [])
unfolding read_fields digits
read_fields-last x p =
    let number = read_int-decimal x [] p (λ m. refl) in
    ap (λ s. read_fields 1 s) (sym (append-nil (decimal x)))
    ∙ ap (λ r. then_field 0 r (read_fields 0)) number

-- The second loop accepts a byte.
check_fields-byte :
    (n x : ℕ) (vs : List ℤ)
    → IsByte x
    → check_fields (suc n) (pos x ∷ vs) ≡ then_byte x (check_fields n vs)
unfolding check_fields
check_fields-byte n x vs p = let fits : ltb 255 x ≡ false = ground arith in rw fits refl

abbrev IsBytes : ObisCode → Type 0
IsBytes o = IsByte o.a × IsByte o.b × IsByte o.c × IsByte o.d × IsByte o.e × IsByte o.f

-- The text that `to_canonical` gives is read back by `from_string` as the bytes of the code.
pub from_string-to_canonical :
    (o : ObisCode) → IsBytes o → from_string (to_canonical o) ≡ some (ok (to_array o))
unfolding from_string to_canonical to_array
from_string-to_canonical o (pa, pb, pc, pd, pe, pf) =
    rw
      (
        read_fields-decimal 4 o.a 0x2D _ pa refl refl,
        read_fields-decimal 3 o.b 0x3A _ pb refl refl,
        read_fields-decimal 2 o.c 0x2E _ pc refl refl,
        read_fields-decimal 1 o.d 0x2E _ pd refl refl,
        read_fields-decimal 0 o.e 0x2E _ pe refl refl,
        read_fields-last o.f pf,
        check_fields-byte 5 o.a _ pa,
        check_fields-byte 4 o.b _ pb,
        check_fields-byte 3 o.c _ pc,
        check_fields-byte 2 o.d _ pd,
        check_fields-byte 1 o.e _ pe,
        check_fields-byte 0 o.f _ pf,
      )
      (unfold check_fields in refl)
