-- ===== src/Cosem/Device/SecuritySetup.antt =====
-- include/dlms/cosem/security_setup.hpp: the class SecuritySetup.
use dlms_cosem_cpp.Base.{ℕ, ◌%◌, ◌^◌, ◌≡◌, refl, true, List, [], ◌∷◌, arith}
use dlms_cosem_cpp.Core.{Result, is_ok, ok}
use dlms_cosem_cpp.Axdr.Value.{DlmsValue, uint8, octets}
use dlms_cosem_cpp.Cosem.Object.{
  AttributeAccess, CosemClass, attribute, read, write, octets_or, uint8_or,
}
use dlms_cosem_cpp.Cosem.Object.Store.{
  Cell, answer, IsAttributeStore, cell_of, reads_after, is_listed, is_member, held_low_byte,
  holds_octets, holds_uint8, holds_low_byte, octets_or-takes, uint8_or-takes,
}

pub record SecuritySetup : Type 0 where
  pub logical_name : List ℕ
  pub policy : ℕ
  pub suite : ℕ
  pub system_title : List ℕ
  pub auth_key : List ℕ
  pub enc_key : List ℕ

unfoldable pub new_security_setup : List ℕ → SecuritySetup
new_security_setup ln = record {
  logical_name = ln;
  policy = 3;
  suite = 0;
  system_title = [];
  auth_key = [];
  enc_key = [];
}

abbrev get_attributes : List AttributeAccess
get_attributes =
    attribute 1 "logical_name" true
    ∷ attribute 2 "security_policy" true
    ∷ attribute 3 "security_suite" true
    ∷ attribute 5 "auth_key" true
    ∷ attribute 6 "enc_key" true
    ∷ attribute 8 "system_title" true
    ∷ []

unfoldable pub get_attribute : SecuritySetup → ℕ → Result DlmsValue
get_attribute o id = read id (
    (1, octets o.logical_name)
    ∷ (2, uint8 o.policy)
    ∷ (3, uint8 (o.suite % 2 ^ 8))
    ∷ (8, octets o.system_title)
    ∷ [])

unfoldable pub set_attribute : SecuritySetup → ℕ → DlmsValue → Result (Unit {0}) × SecuritySetup
set_attribute o id v = write o id (
    (2, record o { policy = uint8_or o.policy v })
    ∷ (3, record o { suite = uint8_or o.suite v })
    ∷ (8, record o { system_title = octets_or o.system_title v })
    ∷ [])

-- `static_cast<uint8_t>(suite_)` of the int that a byte was written to.
suite-held :
    (old : ℕ) (v : DlmsValue)
    → ok (uint8 (uint8_or old v % 2 ^ 8)) ≡ held_low_byte v (ok (uint8 (old % 2 ^ 8)))
suite-held old (uint8 n) = refl
suite-held old _ = refl

abbrev pub class : CosemClass SecuritySetup
class = record {
  class_id = 64;
  version = 0;
  class_name = "SecuritySetup";
  logical_name = λ o. o.logical_name;
  set_logical_name = λ ln o. record o { logical_name = ln };
  get_attributes = get_attributes;
  get_attribute = get_attribute;
  set_attribute = set_attribute;
}

abbrev pub cells : List (ℕ × Cell)
cells = (2, holds_uint8) ∷ (3, holds_low_byte) ∷ (8, holds_octets) ∷ []

-- Listed but never read.
abbrev pub unread : List ℕ
unread = 5 ∷ 6 ∷ []

accepts :
    (o : SecuritySetup) (id : ℕ) (v : DlmsValue)
    → (set_attribute o id v).0 ≡ answer (cell_of cells id) v
unfolding set_attribute write cell_of
accepts o id v = ground arith

reads_back :
    (o : SecuritySetup) (written : ℕ) (v : DlmsValue) (id : ℕ)
    → get_attribute (set_attribute o written v).1 id
      ≡ reads_after cells written v id (get_attribute o id)
unfolding get_attribute set_attribute read write cell_of reads_after
reads_back o written v id =
    ground
      (arith, uint8_or-takes o.policy v, octets_or-takes o.system_title v, suite-held o.suite v)

pub class-IsAttributeStore : IsAttributeStore class cells unread
unfolding get_attribute read is_ok is_listed is_member
class-IsAttributeStore = record {
  answers = accepts;
  stores = reads_back;
  renames = λ ln o id. ground arith;
  lists = λ o id. ground arith;
}
