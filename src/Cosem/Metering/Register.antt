-- ===== src/Cosem/Metering/Register.antt =====
-- include/dlms/cosem/register.hpp: the class Register.
use dlms_cosem_cpp.Base.{ℕ, ◌≡◌, true, false, List, [], ◌∷◌, arith}
use dlms_cosem_cpp.Base.Int.{ℤ, pos}
use dlms_cosem_cpp.Core.{Result, is_ok}
use dlms_cosem_cpp.Axdr.Value.{DlmsValue, null, int8, uint8, octets}
use dlms_cosem_cpp.Cosem.Object.{
  AttributeAccess, CosemClass, attribute, read, write, int8_or, uint8_or,
}
use dlms_cosem_cpp.Cosem.Object.Store.{
  Cell, answer, IsAttributeStore, cell_of, reads_after, is_listed, is_member, holds_any, holds_int8,
  holds_uint8, int8_or-takes, uint8_or-takes,
}

pub record Register : Type 0 where
  pub logical_name : List ℕ
  pub value : DlmsValue
  pub scaler : ℤ
  pub unit : ℕ

unfoldable pub new_register : List ℕ → Register
new_register ln = record { logical_name = ln; value = null; scaler = pos 0; unit = 0 }

abbrev get_attributes : List AttributeAccess
get_attributes =
    attribute 1 "logical_name" true
    ∷ attribute 2 "value" false
    ∷ attribute 3 "scaler" true
    ∷ attribute 4 "unit" true
    ∷ []

unfoldable pub get_attribute : Register → ℕ → Result DlmsValue
get_attribute o id =
    read id
      ((1, octets o.logical_name) ∷ (2, o.value) ∷ (3, int8 o.scaler) ∷ (4, uint8 o.unit) ∷ [])

unfoldable pub set_attribute : Register → ℕ → DlmsValue → Result (Unit {0}) × Register
set_attribute o id v = write o id (
    (2, record o { value = v })
    ∷ (3, record o { scaler = int8_or o.scaler v })
    ∷ (4, record o { unit = uint8_or o.unit v })
    ∷ [])

abbrev pub class : CosemClass Register
class = record {
  class_id = 3;
  version = 0;
  class_name = "Register";
  logical_name = λ o. o.logical_name;
  set_logical_name = λ ln o. record o { logical_name = ln };
  get_attributes = get_attributes;
  get_attribute = get_attribute;
  set_attribute = set_attribute;
}

abbrev pub cells : List (ℕ × Cell)
cells = (2, holds_any) ∷ (3, holds_int8) ∷ (4, holds_uint8) ∷ []

-- Listed but never read.
abbrev pub unread : List ℕ
unread = []

accepts :
    (o : Register) (id : ℕ) (v : DlmsValue) → (set_attribute o id v).0 ≡ answer (cell_of cells id) v
unfolding set_attribute write cell_of
accepts o id v = ground arith

reads_back :
    (o : Register) (written : ℕ) (v : DlmsValue) (id : ℕ)
    → get_attribute (set_attribute o written v).1 id
      ≡ reads_after cells written v id (get_attribute o id)
unfolding get_attribute set_attribute read write cell_of reads_after
reads_back o written v id = ground (arith, int8_or-takes o.scaler v, uint8_or-takes o.unit v)

pub class-IsAttributeStore : IsAttributeStore class cells unread
unfolding get_attribute read is_ok is_listed is_member
class-IsAttributeStore = record {
  answers = accepts;
  stores = reads_back;
  renames = λ ln o id. ground arith;
  lists = λ o id. ground arith;
}
