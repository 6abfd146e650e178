-- ===== src/Obis/Runs.antt =====
-- Runs of include/dlms/core/obis.hpp on concrete codes.
use dlms_cosem_cpp.Base.{◌≡◌, refl, none, some, [], ◌∷◌, arith, ltb, ◌==◌}
use dlms_cosem_cpp.Core.{ok}
use dlms_cosem_cpp.Obis.{ObisCode, to_array, obis_less, obis_equal}
use dlms_cosem_cpp.Obis.Text.{digits, to_canonical, from_string}
use dlms_cosem_cpp.Obis.Text.RoundTrip.{from_string-to_canonical}
use dlms_cosem_cpp.Obis.Order.{number, obis_less-number}

abbrev clock : ObisCode
clock = record { a = 0; b = 0; c = 1; d = 0; e = 0; f = 255 }

abbrev energy : ObisCode
energy = record { a = 1; b = 0; c = 1; d = 8; e = 0; f = 255 }

obis_less-number_example :
    (obis_less clock energy ≡ ltb (number clock) (number energy))
    × (obis_equal clock energy ≡ (number clock == number energy))
obis_less-number_example = obis_less-number clock energy (ground arith) (ground arith)

-- The code of the active energy, "1-0:1.8.0.255".
from_string-to_canonical_example : from_string (to_canonical energy) ≡ some (ok (to_array energy))
from_string-to_canonical_example =
    from_string-to_canonical energy
      (omega arith, omega arith, omega arith, omega arith, omega arith, omega arith)

-- "1-0" ends after two numbers, and what follows is a use of numbers that were never read.
short_text : from_string (0x31 ∷ 0x2D ∷ 0x30 ∷ []) ≡ none
unfolding from_string digits
short_text = refl
