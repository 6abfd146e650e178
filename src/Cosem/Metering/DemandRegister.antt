-- ===== src/Cosem/Metering/DemandRegister.antt =====
-- include/dlms/cosem/demand_register.hpp: the class DemandRegister.
use dlms_cosem_cpp.Base.{ℕ, ◌≡◌, true, false, List, [], ◌∷◌, arith}
use dlms_cosem_cpp.Base.Int.{ℤ, pos}
use dlms_cosem_cpp.Core.{Result, is_ok}
use dlms_cosem_cpp.Axdr.Value.{DlmsValue, null, int8, uint8, uint32, octets}
use dlms_cosem_cpp.Cosem.Object.{AttributeAccess, CosemClass, attribute, read, write, uint32_or}
use dlms_cosem_cpp.Cosem.Object.Store.{
  Cell, answer, IsAttributeStore, cell_of, reads_after, is_listed, is_member, holds_any,
  holds_uint32, uint32_or-takes,
}

pub record DemandRegister : Type 0 where
  pub logical_name : List ℕ
  pub value : DlmsValue
  pub status : ℕ
  pub scaler : ℤ
  pub unit : ℕ
  pub period : ℕ

unfoldable pub new_demand_register : List ℕ → DemandRegister
new_demand_register ln = record {
  logical_name = ln;
  value = null;
  status = 0;
  scaler = pos 0;
  unit = 0;
  period = 0;
}

abbrev get_attributes : List AttributeAccess
get_attributes =
    attribute 1 "logical_name" true
    ∷ attribute 2 "current_value" false
    ∷ attribute 3 "status" false
    ∷ attribute 4 "scaler" true
    ∷ attribute 5 "unit" true
    ∷ attribute 6 "period" true
    ∷ []

unfoldable pub get_attribute : DemandRegister → ℕ → Result DlmsValue
get_attribute o id = read id (
    (1, octets o.logical_name)
    ∷ (2, o.value)
    ∷ (3, uint32 o.status)
    ∷ (4, int8 o.scaler)
    ∷ (5, uint8 o.unit)
    ∷ (6, uint32 o.period)
    ∷ [])

unfoldable pub set_attribute : DemandRegister → ℕ → DlmsValue → Result (Unit {0}) × DemandRegister
set_attribute o id v =
    write o id ((2, record o { value = v }) ∷ (6, record o { period = uint32_or o.period v }) ∷ [])

abbrev pub class : CosemClass DemandRegister
class = record {
  class_id = 5;
  version = 0;
  class_name = "DemandRegister";
  logical_name = λ o. o.logical_name;
  set_logical_name = λ ln o. record o { logical_name = ln };
  get_attributes = get_attributes;
  get_attribute = get_attribute;
  set_attribute = set_attribute;
}

abbrev pub cells : List (ℕ × Cell)
cells = (2, holds_any) ∷ (6, holds_uint32) ∷ []

-- Listed but never read.
abbrev pub unread : List ℕ
unread = []

accepts :
    (o : DemandRegister) (id : ℕ) (v : DlmsValue)
    → (set_attribute o id v).0 ≡ answer (cell_of cells id) v
unfolding set_attribute write cell_of
accepts o id v = ground arith

reads_back :
    (o : DemandRegister) (written : ℕ) (v : DlmsValue) (id : ℕ)
    → get_attribute (set_attribute o written v).1 id
      ≡ reads_after cells written v id (get_attribute o id)
unfolding get_attribute set_attribute read write cell_of reads_after
reads_back o written v id = ground (arith, uint32_or-takes o.period v)

pub class-IsAttributeStore : IsAttributeStore class cells unread
unfolding get_attribute read is_ok is_listed is_member
class-IsAttributeStore = record {
  answers = accepts;
  stores = reads_back;
  renames = λ ln o id. ground arith;
  lists = λ o id. ground arith;
}
