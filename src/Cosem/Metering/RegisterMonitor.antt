-- ===== src/Cosem/Metering/RegisterMonitor.antt =====
-- include/dlms/cosem/register_monitor.hpp: the class RegisterMonitor.
use dlms_cosem_cpp.Base.{
  ℕ, ◌^◌, ◌≡◌, refl, ap, true, false, ◌&&◌, if◌then◌else◌, List, [], ◌∷◌, ◌++◌, ◌==◌, length, arith,
}
use dlms_cosem_cpp.Base.Int.{to_signed}
use dlms_cosem_cpp.Core.{Result, is_ok, ok}
use dlms_cosem_cpp.Axdr.Value.{DlmsValue, is_array, null, int8, uint8, uint16, octets, array}
use dlms_cosem_cpp.Cosem.Object.{
  AttributeAccess, CosemClass, attribute, read, write, default_name, octets_or, uint8_or, uint16_or,
  values_of, items_of, make_dlms_array, make_dlms_structure,
}
use dlms_cosem_cpp.Cosem.Object.Store.{
  Cell, takes, answer, IsAttributeStore, cell_of, reads_after, is_listed, is_member, holds_octets,
  holds_uint8, holds_uint16, needs_array, octets_or-takes, uint8_or-takes, uint16_or-takes,
  items_of-values,
}

pub record MonitoredValue : Type 0 where
  pub class_id : ℕ
  pub logical_name : List ℕ
  pub attribute_id : ℕ

abbrev monitored : MonitoredValue → DlmsValue
monitored m =
    make_dlms_structure
      (uint16 m.class_id ∷ octets m.logical_name ∷ int8 (to_signed (2 ^ 8) m.attribute_id) ∷ [])

-- The values of an array; a value of another type has none.
abbrev pub items : DlmsValue → List DlmsValue
items (array vs) = items_of vs
items _ = []

pub record RegisterMonitor : Type 0 where
  pub logical_name : List ℕ
  pub threshold_values : List DlmsValue
  pub monitored_value : MonitoredValue
  pub captured_value : DlmsValue
  pub capture_time : List ℕ
  pub status : ℕ
  pub capture_period : ℕ

unfoldable pub new_register_monitor : List ℕ → RegisterMonitor
new_register_monitor ln = record {
  logical_name = ln;
  threshold_values = [];
  monitored_value = record { class_id = 0; logical_name = default_name; attribute_id = 2 };
  captured_value = null;
  capture_time = [];
  status = 0;
  capture_period = 0;
}

abbrev get_attributes : List AttributeAccess
get_attributes =
    attribute 1 "logical_name" true
    ∷ attribute 2 "threshold_values" false
    ∷ attribute 3 "monitored_value" false
    ∷ attribute 4 "captured_value" false
    ∷ attribute 5 "capture_time" false
    ∷ attribute 6 "status" false
    ∷ attribute 7 "capture_period" false
    ∷ []

unfoldable pub get_attribute : RegisterMonitor → ℕ → Result DlmsValue
get_attribute o id = read id (
    (1, octets o.logical_name)
    ∷ (2, make_dlms_array o.threshold_values)
    ∷ (3, monitored o.monitored_value)
    ∷ (4, o.captured_value)
    ∷ (5, octets o.capture_time)
    ∷ (6, uint8 o.status)
    ∷ (7, uint16 o.capture_period)
    ∷ [])

-- An array replaces the thresholds; a value of another type falls through the cases that follow.
unfoldable pub set_attribute : RegisterMonitor → ℕ → DlmsValue → Result (Unit {0}) × RegisterMonitor
set_attribute o id v =
    if id == 2 && is_array v
    then (ok tt, record o { threshold_values = items v })
    else write o id (
        (5, record o { capture_time = octets_or o.capture_time v })
        ∷ (6, record o { status = uint8_or o.status v })
        ∷ (7, record o { capture_period = uint16_or o.capture_period v })
        ∷ [])

unfoldable pub set_monitored_value : ℕ → List ℕ → ℕ → RegisterMonitor → RegisterMonitor
set_monitored_value class_id ln attr_id o = record o {
  monitored_value = record { class_id = class_id; logical_name = ln; attribute_id = attr_id };
}

unfoldable pub add_threshold : DlmsValue → RegisterMonitor → RegisterMonitor
add_threshold value o = record o { threshold_values = o.threshold_values ++ (value ∷ []) }

unfoldable pub capture : DlmsValue → RegisterMonitor → RegisterMonitor
capture value o = record o {
  captured_value = value;
  capture_time = 0 ∷ 0 ∷ 1 ∷ 1 ∷ 0 ∷ 0 ∷ 0 ∷ 0 ∷ 0 ∷ 0 ∷ 0 ∷ [];
}

unfoldable pub threshold_count : RegisterMonitor → ℕ
threshold_count o = length o.threshold_values

is_array-takes : (v : DlmsValue) → is_array v ≡ takes needs_array v
unfolding is_array
is_array-takes (array vs) = refl
is_array-takes _ = refl

items-array : (v : DlmsValue) → is_array v ≡ true → array (values_of (items v)) ≡ v
unfolding is_array
items-array (array vs) h = ap array (items_of-values vs)
items-array _ h = cc

abbrev pub class : CosemClass RegisterMonitor
class = record {
  class_id = 21;
  version = 0;
  class_name = "RegisterMonitor";
  logical_name = λ o. o.logical_name;
  set_logical_name = λ ln o. record o { logical_name = ln };
  get_attributes = get_attributes;
  get_attribute = get_attribute;
  set_attribute = set_attribute;
}

abbrev pub cells : List (ℕ × Cell)
cells = (2, needs_array) ∷ (5, holds_octets) ∷ (6, holds_uint8) ∷ (7, holds_uint16) ∷ []

-- Listed but never read.
abbrev pub unread : List ℕ
unread = []

accepts :
    (o : RegisterMonitor) (id : ℕ) (v : DlmsValue)
    → (set_attribute o id v).0 ≡ answer (cell_of cells id) v
unfolding set_attribute write cell_of
accepts o id v = ground (arith, is_array-takes v)

reads_back :
    (o : RegisterMonitor) (written : ℕ) (v : DlmsValue) (id : ℕ)
    → get_attribute (set_attribute o written v).1 id
      ≡ reads_after cells written v id (get_attribute o id)
unfolding get_attribute set_attribute read write cell_of reads_after
reads_back o written v id = ground (
  arith,
  octets_or-takes o.capture_time v,
  uint8_or-takes o.status v,
  uint16_or-takes o.capture_period v,
  is_array-takes v,
  items-array v,
)

pub class-IsAttributeStore : IsAttributeStore class cells unread
unfolding get_attribute read is_ok is_listed is_member
class-IsAttributeStore = record {
  answers = accepts;
  stores = reads_back;
  renames = λ ln o id. ground arith;
  lists = λ o id. ground arith;
}
