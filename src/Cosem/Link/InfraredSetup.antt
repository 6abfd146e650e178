-- ===== src/Cosem/Link/InfraredSetup.antt =====
-- include/dlms/cosem/infrared_setup.hpp: the class InfraredSetup.
use dlms_cosem_cpp.Base.{ℕ, ◌≡◌, true, List, [], ◌∷◌, arith}
use dlms_cosem_cpp.Core.{Result, is_ok}
use dlms_cosem_cpp.Axdr.Value.{DlmsValue, uint8, uint32, octets}
use dlms_cosem_cpp.Cosem.Object.{
  AttributeAccess, CosemClass, attribute, read, write, uint8_or, uint32_or,
}
use dlms_cosem_cpp.Cosem.Object.Store.{
  Cell, answer, IsAttributeStore, cell_of, reads_after, is_listed, is_member, holds_uint8,
  holds_uint32, uint8_or-takes, uint32_or-takes,
}

pub data Parity : Type 0 where
  parity_none parity_odd parity_even parity_mark parity_space : Parity

-- A field of this type holds any byte: `static_cast` makes every byte a value of it.
abbrev pub parity_code : Parity → ℕ
parity_code parity_none = 0
parity_code parity_odd = 1
parity_code parity_even = 2
parity_code parity_mark = 3
parity_code parity_space = 4

pub data FlowControl : Type 0 where
  flow_control_none flow_control_hardware flow_control_software : FlowControl

-- A field of this type holds any byte: `static_cast` makes every byte a value of it.
abbrev pub flow_control_code : FlowControl → ℕ
flow_control_code flow_control_none = 0
flow_control_code flow_control_hardware = 1
flow_control_code flow_control_software = 2

pub record InfraredSetup : Type 0 where
  pub logical_name : List ℕ
  pub baud_rate : ℕ
  pub data_bits : ℕ
  pub stop_bits : ℕ
  pub parity : ℕ
  pub flow_control : ℕ

unfoldable pub new_infrared_setup : List ℕ → InfraredSetup
new_infrared_setup ln = record {
  logical_name = ln;
  baud_rate = 9600;
  data_bits = 8;
  stop_bits = 1;
  parity = parity_code parity_none;
  flow_control = flow_control_code flow_control_none;
}

abbrev get_attributes : List AttributeAccess
get_attributes =
    attribute 1 "logical_name" true
    ∷ attribute 2 "baud_rate" true
    ∷ attribute 3 "data_bits" true
    ∷ attribute 4 "stop_bits" true
    ∷ attribute 5 "parity" true
    ∷ attribute 6 "flow_control" true
    ∷ []

unfoldable pub get_attribute : InfraredSetup → ℕ → Result DlmsValue
get_attribute o id = read id (
    (1, octets o.logical_name)
    ∷ (2, uint32 o.baud_rate)
    ∷ (3, uint8 o.data_bits)
    ∷ (4, uint8 o.stop_bits)
    ∷ (5, uint8 o.parity)
    ∷ (6, uint8 o.flow_control)
    ∷ [])

unfoldable pub set_attribute : InfraredSetup → ℕ → DlmsValue → Result (Unit {0}) × InfraredSetup
set_attribute o id v = write o id (
    (2, record o { baud_rate = uint32_or o.baud_rate v })
    ∷ (3, record o { data_bits = uint8_or o.data_bits v })
    ∷ (4, record o { stop_bits = uint8_or o.stop_bits v })
    ∷ (5, record o { parity = uint8_or o.parity v })
    ∷ (6, record o { flow_control = uint8_or o.flow_control v })
    ∷ [])

unfoldable pub set_baud_rate : ℕ → InfraredSetup → InfraredSetup
set_baud_rate rate o = record o { baud_rate = rate }

unfoldable pub set_parity : ℕ → InfraredSetup → InfraredSetup
set_parity parity o = record o { parity = parity }

abbrev pub class : CosemClass InfraredSetup
class = record {
  class_id = 46;
  version = 0;
  class_name = "InfraredSetup";
  logical_name = λ o. o.logical_name;
  set_logical_name = λ ln o. record o { logical_name = ln };
  get_attributes = get_attributes;
  get_attribute = get_attribute;
  set_attribute = set_attribute;
}

abbrev pub cells : List (ℕ × Cell)
cells =
    (2, holds_uint32)
    ∷ (3, holds_uint8)
    ∷ (4, holds_uint8)
    ∷ (5, holds_uint8)
    ∷ (6, holds_uint8)
    ∷ []

-- Listed but never read.
abbrev pub unread : List ℕ
unread = []

accepts :
    (o : InfraredSetup) (id : ℕ) (v : DlmsValue)
    → (set_attribute o id v).0 ≡ answer (cell_of cells id) v
unfolding set_attribute write cell_of
accepts o id v = ground arith

reads_back :
    (o : InfraredSetup) (written : ℕ) (v : DlmsValue) (id : ℕ)
    → get_attribute (set_attribute o written v).1 id
      ≡ reads_after cells written v id (get_attribute o id)
unfolding get_attribute set_attribute read write cell_of reads_after
reads_back o written v id = ground (
  arith,
  uint32_or-takes o.baud_rate v,
  uint8_or-takes o.data_bits v,
  uint8_or-takes o.stop_bits v,
  uint8_or-takes o.parity v,
  uint8_or-takes o.flow_control v,
)

pub class-IsAttributeStore : IsAttributeStore class cells unread
unfolding get_attribute read is_ok is_listed is_member
class-IsAttributeStore = record {
  answers = accepts;
  stores = reads_back;
  renames = λ ln o id. ground arith;
  lists = λ o id. ground arith;
}
