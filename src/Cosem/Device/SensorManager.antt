-- ===== src/Cosem/Device/SensorManager.antt =====
-- include/dlms/cosem/sensor_manager.hpp: the class SensorManager.
use dlms_cosem_cpp.Base.{
  ℕ, ◌≡◌, Bool, true, false, if◌then◌else◌, List, [], ◌∷◌, ◌++◌, ltb, length, map, arith,
}
use dlms_cosem_cpp.Core.{Result, is_ok}
use dlms_cosem_cpp.Axdr.Value.{DlmsValue, uint8, octets}
use dlms_cosem_cpp.Cosem.Object.{
  AttributeAccess, CosemClass, attribute, read, write, erase, make_dlms_array, make_dlms_structure,
}
use dlms_cosem_cpp.Cosem.Object.Store.{
  Cell, answer, IsAttributeStore, cell_of, reads_after, is_listed, is_member,
}

pub record SensorEntry : Type 0 where
  pub sensor_reference : List ℕ
  pub sensor_type : ℕ

abbrev sensor_value : SensorEntry → DlmsValue
sensor_value sensor =
    make_dlms_structure (octets sensor.sensor_reference ∷ uint8 sensor.sensor_type ∷ [])

pub record SensorManager : Type 0 where
  pub logical_name : List ℕ
  pub sensor_list : List SensorEntry

unfoldable pub new_sensor_manager : List ℕ → SensorManager
new_sensor_manager ln = record { logical_name = ln; sensor_list = [] }

abbrev get_attributes : List AttributeAccess
get_attributes = attribute 1 "logical_name" true ∷ attribute 2 "sensor_list" false ∷ []

unfoldable pub get_attribute : SensorManager → ℕ → Result DlmsValue
get_attribute o id =
    read id
      ((1, octets o.logical_name) ∷ (2, make_dlms_array (map sensor_value o.sensor_list)) ∷ [])

unfoldable pub set_attribute : SensorManager → ℕ → DlmsValue → Result (Unit {0}) × SensorManager
set_attribute o id v = write o id ([])

unfoldable pub add_sensor : SensorEntry → SensorManager → SensorManager
add_sensor entry o = record o { sensor_list = o.sensor_list ++ (entry ∷ []) }

unfoldable pub remove_sensor : ℕ → SensorManager → Bool × SensorManager
remove_sensor index o =
    if ltb index (length o.sensor_list)
    then (true, record o { sensor_list = erase index o.sensor_list })
    else (false, o)

abbrev pub class : CosemClass SensorManager
class = record {
  class_id = 67;
  version = 0;
  class_name = "SensorManager";
  logical_name = λ o. o.logical_name;
  set_logical_name = λ ln o. record o { logical_name = ln };
  get_attributes = get_attributes;
  get_attribute = get_attribute;
  set_attribute = set_attribute;
}

abbrev pub cells : List (ℕ × Cell)
cells = []

-- Listed but never read.
abbrev pub unread : List ℕ
unread = []

accepts :
    (o : SensorManager) (id : ℕ) (v : DlmsValue)
    → (set_attribute o id v).0 ≡ answer (cell_of cells id) v
unfolding set_attribute write cell_of
accepts o id v = ground arith

reads_back :
    (o : SensorManager) (written : ℕ) (v : DlmsValue) (id : ℕ)
    → get_attribute (set_attribute o written v).1 id
      ≡ reads_after cells written v id (get_attribute o id)
unfolding get_attribute set_attribute read write cell_of reads_after
reads_back o written v id = ground arith

pub class-IsAttributeStore : IsAttributeStore class cells unread
unfolding get_attribute read is_ok is_listed is_member
class-IsAttributeStore = record {
  answers = accepts;
  stores = reads_back;
  renames = λ ln o id. ground arith;
  lists = λ o id. ground arith;
}
