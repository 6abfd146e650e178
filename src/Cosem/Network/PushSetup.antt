-- ===== src/Cosem/Network/PushSetup.antt =====
-- include/dlms/cosem/push_setup.hpp: the class PushSetup.
use dlms_cosem_cpp.Base.{ℕ, ◌^◌, ◌≡◌, true, false, List, [], ◌∷◌, ◌++◌, length, map, arith}
use dlms_cosem_cpp.Base.Int.{to_signed}
use dlms_cosem_cpp.Core.{Result, is_ok}
use dlms_cosem_cpp.Axdr.Value.{DlmsValue, int8, uint8, uint16, octets}
use dlms_cosem_cpp.Cosem.Object.{
  AttributeAccess, CosemClass, attribute, read, write, octets_or, uint8_or, uint16_or,
  make_dlms_array, make_dlms_structure,
}
use dlms_cosem_cpp.Cosem.Object.Store.{
  Cell, answer, IsAttributeStore, cell_of, reads_after, is_listed, is_member, holds_octets,
  holds_uint8, holds_uint16, octets_or-takes, uint8_or-takes, uint16_or-takes,
}

pub record PushObjectEntry : Type 0 where
  pub class_id : ℕ
  pub logical_name : List ℕ
  pub attribute_id : ℕ
  pub data_index : ℕ

abbrev object_value : PushObjectEntry → DlmsValue
object_value obj = make_dlms_structure (
    uint16 obj.class_id
    ∷ octets obj.logical_name
    ∷ int8 (to_signed (2 ^ 8) obj.attribute_id)
    ∷ uint8 obj.data_index
    ∷ [])

pub record PushSetup : Type 0 where
  pub logical_name : List ℕ
  pub push_objects : List PushObjectEntry
  pub service : ℕ
  pub destination : List ℕ
  pub randomisation_start_interval : ℕ
  pub number_of_retries : ℕ
  pub repetition_delay : ℕ

unfoldable pub new_push_setup : List ℕ → PushSetup
new_push_setup ln = record {
  logical_name = ln;
  push_objects = [];
  service = 0;
  destination = [];
  randomisation_start_interval = 0;
  number_of_retries = 3;
  repetition_delay = 60;
}

abbrev get_attributes : List AttributeAccess
get_attributes =
    attribute 1 "logical_name" true
    ∷ attribute 2 "push_object_list" false
    ∷ attribute 3 "service" false
    ∷ attribute 4 "destination" false
    ∷ attribute 5 "communication_window" false
    ∷ attribute 6 "randomisation_start_interval" false
    ∷ attribute 7 "number_of_retries" false
    ∷ attribute 8 "repetition_delay" false
    ∷ []

unfoldable pub get_attribute : PushSetup → ℕ → Result DlmsValue
get_attribute o id = read id (
    (1, octets o.logical_name)
    ∷ (2, make_dlms_array (map object_value o.push_objects))
    ∷ (3, uint16 o.service)
    ∷ (4, octets o.destination)
    ∷ (6, uint16 o.randomisation_start_interval)
    ∷ (7, uint8 o.number_of_retries)
    ∷ (8, uint16 o.repetition_delay)
    ∷ [])

unfoldable pub set_attribute : PushSetup → ℕ → DlmsValue → Result (Unit {0}) × PushSetup
set_attribute o id v = write o id (
    (3, record o { service = uint16_or o.service v })
    ∷ (4, record o { destination = octets_or o.destination v })
    ∷ (6, record o { randomisation_start_interval = uint16_or o.randomisation_start_interval v })
    ∷ (7, record o { number_of_retries = uint8_or o.number_of_retries v })
    ∷ (8, record o { repetition_delay = uint16_or o.repetition_delay v })
    ∷ [])

unfoldable pub add_push_object : ℕ → List ℕ → ℕ → ℕ → PushSetup → PushSetup
add_push_object class_id ln attr_id data_index o = record o {
  push_objects =
      o.push_objects
      ++ (record {
        class_id = class_id;
        logical_name = ln;
        attribute_id = attr_id;
        data_index = data_index;
      }
          ∷ []);
}

unfoldable pub object_count : PushSetup → ℕ
object_count o = length o.push_objects

abbrev pub class : CosemClass PushSetup
class = record {
  class_id = 40;
  version = 0;
  class_name = "PushSetup";
  logical_name = λ o. o.logical_name;
  set_logical_name = λ ln o. record o { logical_name = ln };
  get_attributes = get_attributes;
  get_attribute = get_attribute;
  set_attribute = set_attribute;
}

abbrev pub cells : List (ℕ × Cell)
cells =
    (3, holds_uint16)
    ∷ (4, holds_octets)
    ∷ (6, holds_uint16)
    ∷ (7, holds_uint8)
    ∷ (8, holds_uint16)
    ∷ []

-- Listed but never read.
abbrev pub unread : List ℕ
unread = 5 ∷ []

accepts :
    (o : PushSetup) (id : ℕ) (v : DlmsValue)
    → (set_attribute o id v).0 ≡ answer (cell_of cells id) v
unfolding set_attribute write cell_of
accepts o id v = ground arith

reads_back :
    (o : PushSetup) (written : ℕ) (v : DlmsValue) (id : ℕ)
    → get_attribute (set_attribute o written v).1 id
      ≡ reads_after cells written v id (get_attribute o id)
unfolding get_attribute set_attribute read write cell_of reads_after
reads_back o written v id = ground (
  arith,
  uint16_or-takes o.service v,
  octets_or-takes o.destination v,
  uint16_or-takes o.randomisation_start_interval v,
  uint8_or-takes o.number_of_retries v,
  uint16_or-takes o.repetition_delay v,
)

pub class-IsAttributeStore : IsAttributeStore class cells unread
unfolding get_attribute read is_ok is_listed is_member
class-IsAttributeStore = record {
  answers = accepts;
  stores = reads_back;
  renames = λ ln o id. ground arith;
  lists = λ o id. ground arith;
}
