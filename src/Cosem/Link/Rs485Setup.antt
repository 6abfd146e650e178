-- ===== src/Cosem/Link/Rs485Setup.antt =====
-- include/dlms/cosem/rs485_setup.hpp: the class Rs485Setup.
use dlms_cosem_cpp.Base.{ℕ, ◌≡◌, true, List, [], ◌∷◌, arith}
use dlms_cosem_cpp.Core.{Result, is_ok}
use dlms_cosem_cpp.Axdr.Value.{DlmsValue, uint32, octets}
use dlms_cosem_cpp.Cosem.Object.{AttributeAccess, CosemClass, attribute, read, write, uint32_or}
use dlms_cosem_cpp.Cosem.Object.Store.{
  Cell, answer, IsAttributeStore, cell_of, reads_after, is_listed, is_member, holds_uint32,
  uint32_or-takes,
}

pub record Rs485Setup : Type 0 where
  pub logical_name : List ℕ
  pub baud_rate : ℕ
  pub mode : ℕ

unfoldable pub new_rs485_setup : List ℕ → Rs485Setup
new_rs485_setup ln = record { logical_name = ln; baud_rate = 9600; mode = 0 }

abbrev get_attributes : List AttributeAccess
get_attributes =
    attribute 1 "logical_name" true ∷ attribute 2 "baud_rate" true ∷ attribute 3 "mode" true ∷ []

unfoldable pub get_attribute : Rs485Setup → ℕ → Result DlmsValue
get_attribute o id = read id ((1, octets o.logical_name) ∷ (2, uint32 o.baud_rate) ∷ [])

unfoldable pub set_attribute : Rs485Setup → ℕ → DlmsValue → Result (Unit {0}) × Rs485Setup
set_attribute o id v = write o id ((2, record o { baud_rate = uint32_or o.baud_rate v }) ∷ [])

abbrev pub class : CosemClass Rs485Setup
class = record {
  class_id = 23;
  version = 0;
  class_name = "RS485Setup";
  logical_name = λ o. o.logical_name;
  set_logical_name = λ ln o. record o { logical_name = ln };
  get_attributes = get_attributes;
  get_attribute = get_attribute;
  set_attribute = set_attribute;
}

abbrev pub cells : List (ℕ × Cell)
cells = (2, holds_uint32) ∷ []

-- Listed but never read.
abbrev pub unread : List ℕ
unread = 3 ∷ []

accepts :
    (o : Rs485Setup) (id : ℕ) (v : DlmsValue)
    → (set_attribute o id v).0 ≡ answer (cell_of cells id) v
unfolding set_attribute write cell_of
accepts o id v = ground arith

reads_back :
    (o : Rs485Setup) (written : ℕ) (v : DlmsValue) (id : ℕ)
    → get_attribute (set_attribute o written v).1 id
      ≡ reads_after cells written v id (get_attribute o id)
unfolding get_attribute set_attribute read write cell_of reads_after
reads_back o written v id = ground (arith, uint32_or-takes o.baud_rate v)

pub class-IsAttributeStore : IsAttributeStore class cells unread
unfolding get_attribute read is_ok is_listed is_member
class-IsAttributeStore = record {
  answers = accepts;
  stores = reads_back;
  renames = λ ln o id. ground arith;
  lists = λ o id. ground arith;
}
