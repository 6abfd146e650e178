-- ===== src/Cosem/Device/DirectDisconnect.antt =====
-- include/dlms/cosem/direct_disconnect.hpp: the class DirectDisconnect.
use dlms_cosem_cpp.Base.{ℕ, ◌≡◌, Bool, true, false, List, [], ◌∷◌, ◌==◌, arith}
use dlms_cosem_cpp.Core.{Result, is_ok}
use dlms_cosem_cpp.Axdr.Value.{DlmsValue, uint8, octets}
use dlms_cosem_cpp.Cosem.Object.{AttributeAccess, CosemClass, attribute, read, write, uint8_or}
use dlms_cosem_cpp.Cosem.Object.Store.{
  Cell, answer, IsAttributeStore, cell_of, reads_after, is_listed, is_member, holds_uint8,
  uint8_or-takes,
}

pub data OutputState : Type 0 where
  output_state_disconnected output_state_connected output_state_ready_for_reconnection : OutputState

-- A field of this type holds any byte: `static_cast` makes every byte a value of it.
abbrev pub output_state_code : OutputState → ℕ
output_state_code output_state_disconnected = 0
output_state_code output_state_connected = 1
output_state_code output_state_ready_for_reconnection = 2

pub data ControlState : Type 0 where
  control_state_disabled control_state_enabled : ControlState

-- A field of this type holds any byte: `static_cast` makes every byte a value of it.
abbrev pub control_state_code : ControlState → ℕ
control_state_code control_state_disabled = 0
control_state_code control_state_enabled = 1

pub record DirectDisconnect : Type 0 where
  pub logical_name : List ℕ
  pub output_state : ℕ
  pub control_state : ℕ
  pub effective_control_state : ℕ

unfoldable pub new_direct_disconnect : List ℕ → DirectDisconnect
new_direct_disconnect ln = record {
  logical_name = ln;
  output_state = output_state_code output_state_connected;
  control_state = control_state_code control_state_disabled;
  effective_control_state = control_state_code control_state_disabled;
}

abbrev get_attributes : List AttributeAccess
get_attributes =
    attribute 1 "logical_name" true
    ∷ attribute 2 "output_state" true
    ∷ attribute 3 "control_state" true
    ∷ attribute 4 "effective_control_state" false
    ∷ []

unfoldable pub get_attribute : DirectDisconnect → ℕ → Result DlmsValue
get_attribute o id = read id (
    (1, octets o.logical_name)
    ∷ (2, uint8 o.output_state)
    ∷ (3, uint8 o.control_state)
    ∷ (4, uint8 o.effective_control_state)
    ∷ [])

unfoldable pub set_attribute :
    DirectDisconnect → ℕ → DlmsValue → Result (Unit {0}) × DirectDisconnect
set_attribute o id v = write o id (
    (2, record o { output_state = uint8_or o.output_state v })
    ∷ (3, record o { control_state = uint8_or o.control_state v })
    ∷ [])

unfoldable pub is_connected : DirectDisconnect → Bool
is_connected o = o.output_state == output_state_code output_state_connected

unfoldable pub set_output_state : ℕ → DirectDisconnect → DirectDisconnect
set_output_state state o = record o { output_state = state }

unfoldable pub set_control_state : ℕ → DirectDisconnect → DirectDisconnect
set_control_state state o = record o { control_state = state }

abbrev pub class : CosemClass DirectDisconnect
class = record {
  class_id = 63;
  version = 0;
  class_name = "DirectDisconnect";
  logical_name = λ o. o.logical_name;
  set_logical_name = λ ln o. record o { logical_name = ln };
  get_attributes = get_attributes;
  get_attribute = get_attribute;
  set_attribute = set_attribute;
}

abbrev pub cells : List (ℕ × Cell)
cells = (2, holds_uint8) ∷ (3, holds_uint8) ∷ []

-- Listed but never read.
abbrev pub unread : List ℕ
unread = []

accepts :
    (o : DirectDisconnect) (id : ℕ) (v : DlmsValue)
    → (set_attribute o id v).0 ≡ answer (cell_of cells id) v
unfolding set_attribute write cell_of
accepts o id v = ground arith

reads_back :
    (o : DirectDisconnect) (written : ℕ) (v : DlmsValue) (id : ℕ)
    → get_attribute (set_attribute o written v).1 id
      ≡ reads_after cells written v id (get_attribute o id)
unfolding get_attribute set_attribute read write cell_of reads_after
reads_back o written v id =
    ground (arith, uint8_or-takes o.output_state v, uint8_or-takes o.control_state v)

pub class-IsAttributeStore : IsAttributeStore class cells unread
unfolding get_attribute read is_ok is_listed is_member
class-IsAttributeStore = record {
  answers = accepts;
  stores = reads_back;
  renames = λ ln o id. ground arith;
  lists = λ o id. ground arith;
}
