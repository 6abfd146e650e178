-- ===== src/Obis/Text.antt =====
-- include/dlms/core/obis.hpp: the text form of a code, ObisCode::to_canonical and
-- ObisCode::from_string. A string is the list of its characters' codes. The streams of the standard
-- library are in the C locale, with the flag skipws: `>>` drops white space first.
pub mod RoundTrip
use dlms_cosem_cpp.Base.{
  ℕ, zero, suc, ◌+◌, ◌-◌, ◌*◌, ◌/◌, ◌%◌, ◌^◌, Bool, true, false, ◌&&◌, ◌||◌, not, Option, none,
  some, List, [], ◌∷◌, ◌++◌, ltb, leb, ◌==◌, if◌then◌else◌,
}
use dlms_cosem_cpp.Base.Int.{ℤ, pos, negsuc}
use dlms_cosem_cpp.Core.{Result, ok, err, invalid_obis}
use dlms_cosem_cpp.Obis.{ObisCode}

abbrev pub is_space : ℕ → Bool
is_space c = c == 0x20 || (leb 0x09 c && leb c 0x0D)

abbrev pub is_digit : ℕ → Bool
is_digit c = leb 0x30 c && leb c 0x39

unfoldable pub skip_spaces : List ℕ → List ℕ
skip_spaces [] = []
skip_spaces (c ∷ cs) = let rest = skip_spaces cs in if is_space c then rest else c ∷ cs

-- The digits at the front as a number, added to those that were read, and what follows.
unfoldable pub digits : ℕ → List ℕ → ℕ × List ℕ
digits n [] = (n, [])
digits n (c ∷ cs) =
    let more = digits (n * 10 + (c - 0x30)) cs in if is_digit c then more else (n, c ∷ cs)

-- The digits that a number needs at least one of.
abbrev pub magnitude : List ℕ → Option (ℕ × List ℕ)
magnitude [] = none
magnitude (c ∷ cs) = if is_digit c then some (digits 0 (c ∷ cs)) else none

-- A value outside of int fails.
abbrev pub positive : Option (ℕ × List ℕ) → Option (ℤ × List ℕ)
positive none = none
positive (some p) = if ltb p.0 (2 ^ 31) then some (pos p.0, p.1) else none

abbrev pub minus : ℕ → ℤ
minus zero = pos 0
minus (suc n) = negsuc n

abbrev pub negative : Option (ℕ × List ℕ) → Option (ℤ × List ℕ)
negative none = none
negative (some p) = if leb p.0 (2 ^ 31) then some (minus p.0, p.1) else none

abbrev pub signed : List ℕ → Option (ℤ × List ℕ)
signed [] = none
signed (c ∷ cs) =
    if c == 0x2D
    then negative (magnitude cs)
    else (if c == 0x2B then positive (magnitude cs) else positive (magnitude (c ∷ cs)))

-- `iss >> vals[i]`
unfoldable pub read_int : List ℕ → Option (ℤ × List ℕ)
unfolding skip_spaces
read_int s = signed (skip_spaces s)

-- `iss >> sep`: what follows the next character that is no white space.
abbrev pub behind : List ℕ → Option (List ℕ)
behind [] = none
behind (c ∷ cs) = some cs

abbrev pub in_front : ℤ → Option (List ℤ) → Option (List ℤ)
in_front v none = none
in_front v (some vs) = some (v ∷ vs)

-- `if (i < SIZE - 1) { if (!(iss >> sep)) break; }`, with `n` numbers to go behind this one.
abbrev pub separator : ℕ → List ℕ → Option (List ℕ)
separator n s = if n == 0 then none else behind (skip_spaces s)

abbrev pub then_rest : ℤ → Option (List ℕ) → (List ℕ → Option (List ℤ)) → Option (List ℤ)
then_rest v none next = some (v ∷ [])
then_rest v (some rest) next = in_front v (next rest)

abbrev pub then_field : ℕ → Option (ℤ × List ℕ) → (List ℕ → Option (List ℤ)) → Option (List ℤ)
then_field n none next = none
then_field n (some p) next = then_rest p.0 (separator n p.1) next

-- The first loop of `from_string` with `n` numbers to go: `none` is its error, and fewer than `n`
-- numbers are what it has read when the text ends in place of a separator.
unfoldable pub read_fields : ℕ → List ℕ → Option (List ℤ)
unfolding read_int
read_fields zero s = some []
read_fields (suc n) s = then_field n (read_int s) (read_fields n)

-- `none`: a number that was never read is used, which is undefined.
abbrev pub Checked : Type 0
Checked = Option (Result (List ℕ))

abbrev pub then_byte : ℕ → Checked → Checked
then_byte x (some (ok xs)) = some (ok (x ∷ xs))
then_byte x r = r

-- The second loop of `from_string`, with `n` numbers to go.
unfoldable pub check_fields : ℕ → List ℤ → Checked
check_fields zero vs = some (ok [])
check_fields (suc n) [] = none
check_fields (suc n) (negsuc v ∷ vs) = some (err invalid_obis)
check_fields (suc n) (pos v ∷ vs) =
    let rest = check_fields n vs in if ltb 255 v then some (err invalid_obis) else then_byte v rest

abbrev pub checked_fields : Option (List ℤ) → Checked
checked_fields none = some (err invalid_obis)
checked_fields (some vs) = check_fields 6 vs

-- The bytes of the code that `from_string` makes.
unfoldable pub from_string : List ℕ → Checked
unfolding read_fields check_fields
from_string s = checked_fields (read_fields 6 s)

-- `oss << (int)x` of a byte
unfoldable pub decimal : ℕ → List ℕ
decimal x =
    if ltb x 10
    then (0x30 + x) ∷ []
    else (if ltb x 100
        then (0x30 + x / 10) ∷ (0x30 + x % 10) ∷ []
        else (0x30 + x / 100) ∷ (0x30 + x / 10 % 10) ∷ (0x30 + x % 10) ∷ [])

unfoldable pub to_canonical : ObisCode → List ℕ
to_canonical o =
    decimal o.a
    ++ (0x2D
        ∷ (decimal o.b
            ++ (0x3A
                ∷ (decimal o.c
                    ++ (0x2E ∷ (decimal o.d ++ (0x2E ∷ (decimal o.e ++ (0x2E ∷ decimal o.f)))))))))
