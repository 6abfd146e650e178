-- ===== src/Cosem/DisconnectControl/Class.antt =====
-- include/dlms/cosem/disconnect_control.hpp: the class DisconnectControl as a store of attributes.
use dlms_cosem_cpp.Base.{ℕ, ◌≡◌, true, false, List, [], ◌∷◌, arith}
use dlms_cosem_cpp.Core.{is_ok}
use dlms_cosem_cpp.Axdr.Value.{DlmsValue, uint8}
use dlms_cosem_cpp.Cosem.Object.{AttributeAccess, CosemClass, attribute}
use dlms_cosem_cpp.Cosem.Object.Store.{
  Cell, answer, IsAttributeStore, cell_of, reads_after, is_listed, is_member, needs_uint8,
}
use dlms_cosem_cpp.Cosem.DisconnectControl.{DisconnectControl, get_attribute, set_attribute}

abbrev get_attributes : List AttributeAccess
get_attributes =
    attribute 1 "logical_name" true
    ∷ attribute 2 "control_state" false
    ∷ attribute 3 "control_value" false
    ∷ []

abbrev pub class : CosemClass DisconnectControl
class = record {
  class_id = 70;
  version = 0;
  class_name = "DisconnectControl";
  logical_name = λ o. o.logical_name;
  set_logical_name = λ ln o. record o { logical_name = ln };
  get_attributes = get_attributes;
  get_attribute = get_attribute;
  set_attribute = set_attribute;
}

abbrev pub cells : List (ℕ × Cell)
cells = (2, needs_uint8) ∷ []

accepts :
    (o : DisconnectControl) (id : ℕ) (v : DlmsValue)
    → (set_attribute o id v).0 ≡ answer (cell_of cells id) v
unfolding set_attribute cell_of
accepts o id (uint8 n) = ground arith
accepts o id _ = ground arith

reads_back :
    (o : DisconnectControl) (written : ℕ) (v : DlmsValue) (id : ℕ)
    → get_attribute (set_attribute o written v).1 id
      ≡ reads_after cells written v id (get_attribute o id)
unfolding get_attribute set_attribute cell_of reads_after
reads_back o written (uint8 n) id = ground arith
reads_back o written _ id = ground arith

pub class-IsAttributeStore : IsAttributeStore class cells []
unfolding get_attribute is_ok is_listed is_member
class-IsAttributeStore = record {
  answers = accepts;
  stores = reads_back;
  renames = λ ln o id. ground arith;
  lists = λ o id. ground arith;
}
