-- ===== src/Cosem/Link/MbusClient.antt =====
-- include/dlms/cosem/mbus_client.hpp: the class MbusClient.
pub mod Count
use Prim.Native.String.{String}
use dlms_cosem_cpp.Base.{
  ℕ, ◌+◌, ◌-◌, ◌%◌, ◌^◌, ◌≡◌, refl, ap, ap₂, sym, Option, some, none, ◌∙◌, Bool, true, false, ◌||◌,
  ◌&&◌, not, if◌then◌else◌, List, [], ◌∷◌, ◌++◌, ◌==◌, leb, ltb, length, map, take, drop, arith,
}
use dlms_cosem_cpp.Base.Int.{ℤ, pos, to_signed}
use dlms_cosem_cpp.DateTime.{CosemDateTime, datetime_bytes, datetime_of}
use dlms_cosem_cpp.Core.{Result, is_ok, ok, err, access_denied, object_undefined, invalid_data}
use dlms_cosem_cpp.Axdr.Value.{
  DlmsValue, DlmsValues, is_array, null, bool, int8, int16, int32, uint8, uint16, uint32, uint64,
  octets, string, array, structure, nil, cons,
}
use dlms_cosem_cpp.Cosem.Object.{
  AttributeAccess, CosemClass, attribute, read, write, default_name, bool_or, octets_or, string_or,
  int8_or, int16_or, int32_or, uint8_or, uint16_or, uint32_or, uint64_or, datetime_or, new_datetime,
  values_of, items_of, erase, insert, make_dlms_array, make_dlms_structure,
}
use dlms_cosem_cpp.Cosem.Object.Store.{
  Cell, takes, answer, IsAttributeStore, cell_of, reads_after, is_listed, is_member, held,
  held_pair, held_datetime, held_low_byte, word_of, refuses, drops, holds_any, holds_bool,
  holds_octets, holds_string, holds_int8, holds_int16, holds_int32, holds_uint8, holds_uint16,
  holds_uint32, holds_uint64, holds_low_byte, holds_datetime, holds_pair, needs_array, needs_uint8,
  bool_or-takes, octets_or-takes, string_or-takes, int8_or-takes, int16_or-takes, int32_or-takes,
  uint8_or-takes, uint16_or-takes, uint32_or-takes, uint64_or-takes, datetime_or-holds,
  items_of-values,
}

pub record MbusSlaveInfo : Type 0 where
  pub address : ℕ
  pub identification_number : List ℕ
  pub version : ℕ
  pub medium : ℕ

abbrev slave_value : MbusSlaveInfo → DlmsValue
slave_value slave = make_dlms_structure (
    uint8 slave.address
    ∷ octets slave.identification_number
    ∷ uint8 slave.version
    ∷ uint8 slave.medium
    ∷ [])

pub record MbusClient : Type 0 where
  pub logical_name : List ℕ
  pub mbus_port_reference : List ℕ
  pub capture_period : ℕ
  pub mbus_client_port : ℕ
  pub number_of_mbus_clients : ℕ
  pub mbus_client_list : List MbusSlaveInfo

unfoldable pub new_mbus_client : List ℕ → MbusClient
new_mbus_client ln = record {
  logical_name = ln;
  mbus_port_reference = 0 ∷ 0 ∷ 24 ∷ 1 ∷ 0 ∷ 255 ∷ [];
  capture_period = 0;
  mbus_client_port = 1;
  number_of_mbus_clients = 0;
  mbus_client_list = [];
}

abbrev get_attributes : List AttributeAccess
get_attributes =
    attribute 1 "logical_name" true
    ∷ attribute 2 "mbus_port_reference" true
    ∷ attribute 3 "capture_period" false
    ∷ attribute 4 "mbus_client_port" true
    ∷ attribute 5 "number_of_mbus_clients" false
    ∷ attribute 6 "mbus_client_list" false
    ∷ []

unfoldable pub get_attribute : MbusClient → ℕ → Result DlmsValue
get_attribute o id = read id (
    (1, octets o.logical_name)
    ∷ (2, octets o.mbus_port_reference)
    ∷ (3, uint16 o.capture_period)
    ∷ (4, uint16 o.mbus_client_port)
    ∷ (5, uint16 o.number_of_mbus_clients)
    ∷ (6, make_dlms_array (map slave_value o.mbus_client_list))
    ∷ [])

unfoldable pub set_attribute : MbusClient → ℕ → DlmsValue → Result (Unit {0}) × MbusClient
set_attribute o id v =
    write o id ((3, record o { capture_period = uint16_or o.capture_period v }) ∷ [])

unfoldable pub add_mbus_slave : ℕ → List ℕ → ℕ → ℕ → MbusClient → MbusClient
add_mbus_slave address id_number version medium o =
    let slaves =
      o.mbus_client_list
      ++ (record {
        address = address;
        identification_number = id_number;
        version = version;
        medium = medium;
      }
          ∷ []) in
    record o { mbus_client_list = slaves; number_of_mbus_clients = length slaves % 2 ^ 16 }

unfoldable pub clear_slaves : MbusClient → MbusClient
clear_slaves o = record o { mbus_client_list = []; number_of_mbus_clients = 0 }

unfoldable pub slave_count : MbusClient → ℕ
slave_count o = length o.mbus_client_list

unfoldable pub scan_slaves : MbusClient → Result (Unit {0}) × MbusClient
scan_slaves o = (ok tt, o)

abbrev pub class : CosemClass MbusClient
class = record {
  class_id = 57;
  version = 0;
  class_name = "MbusClient";
  logical_name = λ o. o.logical_name;
  set_logical_name = λ ln o. record o { logical_name = ln };
  get_attributes = get_attributes;
  get_attribute = get_attribute;
  set_attribute = set_attribute;
}

abbrev pub cells : List (ℕ × Cell)
cells = (3, holds_uint16) ∷ []

-- Listed but never read.
abbrev pub unread : List ℕ
unread = []

accepts :
    (o : MbusClient) (id : ℕ) (v : DlmsValue)
    → (set_attribute o id v).0 ≡ answer (cell_of cells id) v
unfolding set_attribute write cell_of
accepts o id v = ground arith

reads_back :
    (o : MbusClient) (written : ℕ) (v : DlmsValue) (id : ℕ)
    → get_attribute (set_attribute o written v).1 id
      ≡ reads_after cells written v id (get_attribute o id)
unfolding get_attribute set_attribute read write cell_of reads_after
reads_back o written v id = ground (arith, uint16_or-takes o.capture_period v)

pub class-IsAttributeStore : IsAttributeStore class cells unread
unfolding get_attribute read is_ok is_listed is_member
class-IsAttributeStore = record {
  answers = accepts;
  stores = reads_back;
  renames = λ ln o id. ground arith;
  lists = λ o id. ground arith;
}
