-- ===== src/Hdlc/Address.antt =====
-- include/dlms/hdlc/address.hpp and src/dlms/hdlc/address.cpp. Addresses are uint16_t.
pub mod Laws
use dlms_cosem_cpp.Base.{
  ℕ, ◌+◌, ◌*◌, bit_and, bit_or, Bool, true, false, not, ◌==◌, if◌then◌else◌, List, [], ◌∷◌, ◌++◌,
  length, Option, none, some,
}
use dlms_cosem_cpp.Base.Bits.{u8, ◌<<<◌, ◌>>>◌}

pub data AddressType : Type 0 where
  client server : AddressType

pub record HdlcAddress : Type 0 where
  pub logical : ℕ
  pub physical : Option ℕ
  pub type : AddressType

-- The two groups of seven bits of an address, as `to_bytes` makes them: the high one is not shifted,
-- and `last` is the end mark of the low one.
abbrev pub high_group : ℕ → ℕ
high_group a = bit_and (a >>> 7) 0xFF

abbrev pub low_group : ℕ → ℕ
low_group a = bit_and a 0x7F <<< 1

abbrev pub low_group_last : ℕ → ℕ
low_group_last a = bit_or (low_group a) 0x01

-- `if (h) out.push_back(h); out.push_back(l);`
abbrev pub two_groups : ℕ → ℕ → List ℕ
two_groups h l = if h == 0 then l ∷ [] else h ∷ (l ∷ [])

abbrev server_bytes : ℕ → Option ℕ → List ℕ
server_bytes l none = two_groups (high_group l) (low_group_last l)
server_bytes l (some p) =
    two_groups (high_group l) (low_group l) ++ two_groups (high_group p) (low_group_last p)

abbrev pub address_bytes : AddressType → ℕ → Option ℕ → List ℕ
address_bytes client l p = u8 (bit_or (l <<< 1) 0x01) ∷ []
address_bytes server l p = server_bytes l p

unfoldable pub to_bytes : HdlcAddress → List ℕ
to_bytes a = address_bytes a.type a.logical a.physical

unfoldable pub length_of : HdlcAddress → ℕ
length_of a = length (to_bytes a)

abbrev pub is_end : ℕ → Bool
is_end b = not (bit_and b 0x01 == 0)

abbrev pub seven_bits : ℕ → ℕ
seven_bits b = bit_and (b >>> 1) 0x7F

-- The physical address, if two bytes are left for it.
abbrev physical_of : List ℕ → Option ℕ
physical_of (b2 ∷ (b3 ∷ _)) = some (bit_or (b2 >>> 1) (seven_bits b3 <<< 7))
physical_of (b2 ∷ []) = none
physical_of [] = none

abbrev pub parse_server : List ℕ → ℕ × Option ℕ
parse_server [] = (0, none)
parse_server (b0 ∷ []) = (seven_bits b0, none)
parse_server (b0 ∷ (b1 ∷ rest)) = if is_end b0 then (seven_bits b0, none) else (
  bit_or (seven_bits b0) (seven_bits b1 <<< 7),
  (if is_end b1 then none else physical_of rest),
)

abbrev parse_client : List ℕ → ℕ × Option ℕ
parse_client [] = (0, none)
parse_client (b0 ∷ _) = (b0 >>> 1, none)

abbrev parse_as : AddressType → List ℕ → ℕ × Option ℕ
parse_as client d = parse_client d
parse_as server d = parse_server d

unfoldable pub parse : List ℕ → AddressType → HdlcAddress
parse d t = let (l, p) = parse_as t d in record { logical = l; physical = p; type = t }

unfoldable pub from_bytes : List ℕ → HdlcAddress
from_bytes d = parse d server
