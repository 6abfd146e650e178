-- ===== src/Obis.antt =====
-- include/dlms/core/obis.hpp: the six bytes of an OBIS code; Text has the text forms.
pub mod Text
pub mod Order
mod Runs
use dlms_cosem_cpp.Base.{
  ℕ, ◌+◌, not, Bool, true, false, List, [], ◌∷◌, length, get_or, ltb, ◌==◌, ◌&&◌, if◌then◌else◌,
}
use dlms_cosem_cpp.Core.{Result, ok, err, invalid_obis}

abbrev pub obis_size : ℕ
obis_size = 6

-- `value_`, byte by byte
pub record ObisCode : Type 0 where
  pub a : ℕ
  pub b : ℕ
  pub c : ℕ
  pub d : ℕ
  pub e : ℕ
  pub f : ℕ

abbrev pub new_obis : ObisCode
new_obis = record { a = 0; b = 0; c = 0; d = 0; e = 0; f = 255 }

unfoldable pub obis_of : List ℕ → Result ObisCode
obis_of data_bytes =
    let at = λ (i : ℕ). get_or data_bytes i 0 in
    if ltb (length data_bytes) obis_size
    then err invalid_obis
    else ok (record { a = at 0; b = at 1; c = at 2; d = at 3; e = at 4; f = at 5 })

unfoldable pub to_array : ObisCode → List ℕ
to_array o = o.a ∷ o.b ∷ o.c ∷ o.d ∷ o.e ∷ o.f ∷ []

-- `<` and `==` of arrays
abbrev pub array_less : List ℕ → List ℕ → Bool
array_less [] ys = false
array_less (x ∷ xs) [] = false
array_less (x ∷ xs) (y ∷ ys) =
    let rest = array_less xs ys in if ltb x y then true else (if ltb y x then false else rest)

abbrev pub array_equal : List ℕ → List ℕ → Bool
array_equal [] [] = true
array_equal [] (y ∷ ys) = false
array_equal (x ∷ xs) [] = false
array_equal (x ∷ xs) (y ∷ ys) = x == y && array_equal xs ys

unfoldable pub obis_less : ObisCode → ObisCode → Bool
obis_less o p = array_less (to_array o) (to_array p)

unfoldable pub obis_equal : ObisCode → ObisCode → Bool
obis_equal o p = array_equal (to_array o) (to_array p)

-- `operator!=` and `operator[]`, whose index the callers keep below six
unfoldable obis_differs : ObisCode → ObisCode → Bool
obis_differs o p = not (obis_equal o p)

unfoldable byte_at : ObisCode → ℕ → ℕ
byte_at o i = get_or (to_array o) i 0
