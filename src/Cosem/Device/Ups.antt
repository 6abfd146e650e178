-- ===== src/Cosem/Device/Ups.antt =====
-- include/dlms/cosem/ups.hpp: the class Ups.
use dlms_cosem_cpp.Base.{ℕ, ◌≡◌, Bool, true, false, List, [], ◌∷◌, ◌==◌, arith}
use dlms_cosem_cpp.Core.{Result, is_ok}
use dlms_cosem_cpp.Axdr.Value.{DlmsValue, uint8, uint16, octets}
use dlms_cosem_cpp.Cosem.Object.{AttributeAccess, CosemClass, attribute, read, write, uint8_or}
use dlms_cosem_cpp.Cosem.Object.Store.{
  Cell, answer, IsAttributeStore, cell_of, reads_after, is_listed, is_member, holds_uint8,
  uint8_or-takes,
}

pub data UpsStatus : Type 0 where
  ups_status_offline ups_status_online ups_status_on_battery ups_status_low_battery
        ups_status_replace_battery :
      UpsStatus

-- A field of this type holds any byte: `static_cast` makes every byte a value of it.
abbrev pub ups_status_code : UpsStatus → ℕ
ups_status_code ups_status_offline = 0
ups_status_code ups_status_online = 1
ups_status_code ups_status_on_battery = 2
ups_status_code ups_status_low_battery = 3
ups_status_code ups_status_replace_battery = 4

pub data BatteryStatus : Type 0 where
  battery_status_unknown battery_status_good battery_status_low battery_status_replace :
      BatteryStatus

-- A field of this type holds any byte: `static_cast` makes every byte a value of it.
abbrev pub battery_status_code : BatteryStatus → ℕ
battery_status_code battery_status_unknown = 0
battery_status_code battery_status_good = 1
battery_status_code battery_status_low = 2
battery_status_code battery_status_replace = 3

pub record Ups : Type 0 where
  pub logical_name : List ℕ
  pub ups_status : ℕ
  pub battery_status : ℕ
  pub battery_voltage : ℕ
  pub battery_capacity : ℕ

unfoldable pub new_ups : List ℕ → Ups
new_ups ln = record {
  logical_name = ln;
  ups_status = ups_status_code ups_status_offline;
  battery_status = battery_status_code battery_status_unknown;
  battery_voltage = 0;
  battery_capacity = 0;
}

abbrev get_attributes : List AttributeAccess
get_attributes =
    attribute 1 "logical_name" true
    ∷ attribute 2 "ups_status" true
    ∷ attribute 3 "battery_status" true
    ∷ attribute 4 "battery_voltage" false
    ∷ attribute 5 "battery_capacity" false
    ∷ []

unfoldable pub get_attribute : Ups → ℕ → Result DlmsValue
get_attribute o id = read id (
    (1, octets o.logical_name)
    ∷ (2, uint8 o.ups_status)
    ∷ (3, uint8 o.battery_status)
    ∷ (4, uint16 o.battery_voltage)
    ∷ (5, uint8 o.battery_capacity)
    ∷ [])

unfoldable pub set_attribute : Ups → ℕ → DlmsValue → Result (Unit {0}) × Ups
set_attribute o id v = write o id (
    (2, record o { ups_status = uint8_or o.ups_status v })
    ∷ (3, record o { battery_status = uint8_or o.battery_status v })
    ∷ [])

unfoldable pub is_on_battery : Ups → Bool
is_on_battery o = o.ups_status == ups_status_code ups_status_on_battery

abbrev pub class : CosemClass Ups
class = record {
  class_id = 40;
  version = 0;
  class_name = "Ups";
  logical_name = λ o. o.logical_name;
  set_logical_name = λ ln o. record o { logical_name = ln };
  get_attributes = get_attributes;
  get_attribute = get_attribute;
  set_attribute = set_attribute;
}

abbrev pub cells : List (ℕ × Cell)
cells = (2, holds_uint8) ∷ (3, holds_uint8) ∷ []

-- Listed but never read.
abbrev pub unread : List ℕ
unread = []

accepts :
    (o : Ups) (id : ℕ) (v : DlmsValue) → (set_attribute o id v).0 ≡ answer (cell_of cells id) v
unfolding set_attribute write cell_of
accepts o id v = ground arith

reads_back :
    (o : Ups) (written : ℕ) (v : DlmsValue) (id : ℕ)
    → get_attribute (set_attribute o written v).1 id
      ≡ reads_after cells written v id (get_attribute o id)
unfolding get_attribute set_attribute read write cell_of reads_after
reads_back o written v id =
    ground (arith, uint8_or-takes o.ups_status v, uint8_or-takes o.battery_status v)

pub class-IsAttributeStore : IsAttributeStore class cells unread
unfolding get_attribute read is_ok is_listed is_member
class-IsAttributeStore = record {
  answers = accepts;
  stores = reads_back;
  renames = λ ln o id. ground arith;
  lists = λ o id. ground arith;
}
