-- ===== src/Cosem/Metering/ExtendedRegister.antt =====
-- include/dlms/cosem/extended_register.hpp: the class ExtendedRegister.
use dlms_cosem_cpp.Base.{ℕ, ◌≡◌, true, false, List, [], ◌∷◌, arith}
use dlms_cosem_cpp.Base.Int.{ℤ, pos}
use dlms_cosem_cpp.Core.{Result, is_ok}
use dlms_cosem_cpp.Axdr.Value.{DlmsValue, null, int8, uint8, uint32, octets}
use dlms_cosem_cpp.Cosem.Object.{AttributeAccess, CosemClass, attribute, read, write}
use dlms_cosem_cpp.Cosem.Object.Store.{
  Cell, answer, IsAttributeStore, cell_of, reads_after, is_listed, is_member, holds_any,
}

pub record ExtendedRegister : Type 0 where
  pub logical_name : List ℕ
  pub value : DlmsValue
  pub scaler : ℤ
  pub unit : ℕ
  pub status : ℕ

unfoldable pub new_extended_register : List ℕ → ExtendedRegister
new_extended_register ln = record {
  logical_name = ln;
  value = null;
  scaler = pos 0;
  unit = 0;
  status = 0;
}

abbrev get_attributes : List AttributeAccess
get_attributes =
    attribute 1 "logical_name" true
    ∷ attribute 2 "value" false
    ∷ attribute 3 "scaler" true
    ∷ attribute 4 "unit" true
    ∷ attribute 5 "status" false
    ∷ []

unfoldable pub get_attribute : ExtendedRegister → ℕ → Result DlmsValue
get_attribute o id = read id (
    (1, octets o.logical_name)
    ∷ (2, o.value)
    ∷ (3, int8 o.scaler)
    ∷ (4, uint8 o.unit)
    ∷ (5, uint32 o.status)
    ∷ [])

unfoldable pub set_attribute :
    ExtendedRegister → ℕ → DlmsValue → Result (Unit {0}) × ExtendedRegister
set_attribute o id v = write o id ((2, record o { value = v }) ∷ [])

abbrev pub class : CosemClass ExtendedRegister
class = record {
  class_id = 4;
  version = 0;
  class_name = "ExtendedRegister";
  logical_name = λ o. o.logical_name;
  set_logical_name = λ ln o. record o { logical_name = ln };
  get_attributes = get_attributes;
  get_attribute = get_attribute;
  set_attribute = set_attribute;
}

abbrev pub cells : List (ℕ × Cell)
cells = (2, holds_any) ∷ []

-- Listed but never read.
abbrev pub unread : List ℕ
unread = []

accepts :
    (o : ExtendedRegister) (id : ℕ) (v : DlmsValue)
    → (set_attribute o id v).0 ≡ answer (cell_of cells id) v
unfolding set_attribute write cell_of
accepts o id v = ground arith

reads_back :
    (o : ExtendedRegister) (written : ℕ) (v : DlmsValue) (id : ℕ)
    → get_attribute (set_attribute o written v).1 id
      ≡ reads_after cells written v id (get_attribute o id)
unfolding get_attribute set_attribute read write cell_of reads_after
reads_back o written v id = ground arith

pub class-IsAttributeStore : IsAttributeStore class cells unread
unfolding get_attribute read is_ok is_listed is_member
class-IsAttributeStore = record {
  answers = accepts;
  stores = reads_back;
  renames = λ ln o id. ground arith;
  lists = λ o id. ground arith;
}
