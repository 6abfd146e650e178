-- ===== src/Cosem/Schedule/ClockControl.antt =====
-- include/dlms/cosem/clock_control.hpp: the class ClockControl, with the
-- attributes that its code has. The comment above the class has an adjustment_time at 3 and the
-- attributes 3 to 5 of the code at 4 to 6.
use dlms_cosem_cpp.Base.{ℕ, ◌≡◌, true, false, List, [], ◌∷◌, arith}
use dlms_cosem_cpp.Core.{Result, is_ok}
use dlms_cosem_cpp.Axdr.Value.{DlmsValue, uint8, octets}
use dlms_cosem_cpp.Cosem.Object.{AttributeAccess, CosemClass, attribute, read, write, uint8_or}
use dlms_cosem_cpp.Cosem.Object.Store.{
  Cell, answer, IsAttributeStore, cell_of, reads_after, is_listed, is_member, holds_uint8,
  uint8_or-takes,
}

pub data ControlMode : Type 0 where
  control_mode_manual control_mode_automatic : ControlMode

-- A field of this type holds any byte: `static_cast` makes every byte a value of it.
abbrev pub control_mode_code : ControlMode → ℕ
control_mode_code control_mode_manual = 0
control_mode_code control_mode_automatic = 1

pub record ClockControl : Type 0 where
  pub logical_name : List ℕ
  pub control_mode : ℕ
  pub adjustment_source : ℕ
  pub adjustment_status : ℕ
  pub adjustment_status2 : ℕ

unfoldable pub new_clock_control : List ℕ → ClockControl
new_clock_control ln = record {
  logical_name = ln;
  control_mode = control_mode_code control_mode_manual;
  adjustment_source = 0;
  adjustment_status = 0;
  adjustment_status2 = 0;
}

abbrev get_attributes : List AttributeAccess
get_attributes =
    attribute 1 "logical_name" true
    ∷ attribute 2 "control_mode" true
    ∷ attribute 3 "adjustment_source" true
    ∷ attribute 4 "adjustment_status" false
    ∷ attribute 5 "adjustment_status2" false
    ∷ []

unfoldable pub get_attribute : ClockControl → ℕ → Result DlmsValue
get_attribute o id = read id (
    (1, octets o.logical_name)
    ∷ (2, uint8 o.control_mode)
    ∷ (3, uint8 o.adjustment_source)
    ∷ (4, uint8 o.adjustment_status)
    ∷ (5, uint8 o.adjustment_status2)
    ∷ [])

unfoldable pub set_attribute : ClockControl → ℕ → DlmsValue → Result (Unit {0}) × ClockControl
set_attribute o id v = write o id (
    (2, record o { control_mode = uint8_or o.control_mode v })
    ∷ (3, record o { adjustment_source = uint8_or o.adjustment_source v })
    ∷ [])

unfoldable pub set_control_mode : ℕ → ClockControl → ClockControl
set_control_mode mode o = record o { control_mode = mode }

abbrev pub class : CosemClass ClockControl
class = record {
  class_id = 28;
  version = 0;
  class_name = "ClockControl";
  logical_name = λ o. o.logical_name;
  set_logical_name = λ ln o. record o { logical_name = ln };
  get_attributes = get_attributes;
  get_attribute = get_attribute;
  set_attribute = set_attribute;
}

abbrev pub cells : List (ℕ × Cell)
cells = (2, holds_uint8) ∷ (3, holds_uint8) ∷ []

-- Listed but never read.
abbrev pub unread : List ℕ
unread = []

accepts :
    (o : ClockControl) (id : ℕ) (v : DlmsValue)
    → (set_attribute o id v).0 ≡ answer (cell_of cells id) v
unfolding set_attribute write cell_of
accepts o id v = ground arith

reads_back :
    (o : ClockControl) (written : ℕ) (v : DlmsValue) (id : ℕ)
    → get_attribute (set_attribute o written v).1 id
      ≡ reads_after cells written v id (get_attribute o id)
unfolding get_attribute set_attribute read write cell_of reads_after
reads_back o written v id =
    ground (arith, uint8_or-takes o.control_mode v, uint8_or-takes o.adjustment_source v)

pub class-IsAttributeStore : IsAttributeStore class cells unread
unfolding get_attribute read is_ok is_listed is_member
class-IsAttributeStore = record {
  answers = accepts;
  stores = reads_back;
  renames = λ ln o id. ground arith;
  lists = λ o id. ground arith;
}
