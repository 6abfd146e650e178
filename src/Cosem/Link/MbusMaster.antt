-- ===== src/Cosem/Link/MbusMaster.antt =====
-- include/dlms/cosem/mbus_master.hpp: the class MbusMaster.
use dlms_cosem_cpp.Base.{ℕ, ◌≡◌, true, List, [], ◌∷◌, arith}
use dlms_cosem_cpp.Core.{Result, is_ok}
use dlms_cosem_cpp.Axdr.Value.{DlmsValue, uint8, uint16, uint32, octets}
use dlms_cosem_cpp.Cosem.Object.{
  AttributeAccess, CosemClass, attribute, read, write, uint8_or, uint16_or, uint32_or,
}
use dlms_cosem_cpp.Cosem.Object.Store.{
  Cell, answer, IsAttributeStore, cell_of, reads_after, is_listed, is_member, holds_uint8,
  holds_uint16, holds_uint32, uint8_or-takes, uint16_or-takes, uint32_or-takes,
}

pub record MbusMaster : Type 0 where
  pub logical_name : List ℕ
  pub baud_rate : ℕ
  pub primary_address : ℕ
  pub response_timeout : ℕ

unfoldable pub new_mbus_master : List ℕ → MbusMaster
new_mbus_master ln = record {
  logical_name = ln;
  baud_rate = 2400;
  primary_address = 0;
  response_timeout = 2000;
}

abbrev get_attributes : List AttributeAccess
get_attributes =
    attribute 1 "logical_name" true
    ∷ attribute 2 "baud_rate" true
    ∷ attribute 3 "primary_address" true
    ∷ attribute 4 "response_timeout" true
    ∷ []

unfoldable pub get_attribute : MbusMaster → ℕ → Result DlmsValue
get_attribute o id = read id (
    (1, octets o.logical_name)
    ∷ (2, uint32 o.baud_rate)
    ∷ (3, uint8 o.primary_address)
    ∷ (4, uint16 o.response_timeout)
    ∷ [])

unfoldable pub set_attribute : MbusMaster → ℕ → DlmsValue → Result (Unit {0}) × MbusMaster
set_attribute o id v = write o id (
    (2, record o { baud_rate = uint32_or o.baud_rate v })
    ∷ (3, record o { primary_address = uint8_or o.primary_address v })
    ∷ (4, record o { response_timeout = uint16_or o.response_timeout v })
    ∷ [])

unfoldable pub set_baud_rate : ℕ → MbusMaster → MbusMaster
set_baud_rate rate o = record o { baud_rate = rate }

unfoldable pub set_primary_address : ℕ → MbusMaster → MbusMaster
set_primary_address addr o = record o { primary_address = addr }

abbrev pub class : CosemClass MbusMaster
class = record {
  class_id = 51;
  version = 0;
  class_name = "MbusMaster";
  logical_name = λ o. o.logical_name;
  set_logical_name = λ ln o. record o { logical_name = ln };
  get_attributes = get_attributes;
  get_attribute = get_attribute;
  set_attribute = set_attribute;
}

abbrev pub cells : List (ℕ × Cell)
cells = (2, holds_uint32) ∷ (3, holds_uint8) ∷ (4, holds_uint16) ∷ []

-- Listed but never read.
abbrev pub unread : List ℕ
unread = []

accepts :
    (o : MbusMaster) (id : ℕ) (v : DlmsValue)
    → (set_attribute o id v).0 ≡ answer (cell_of cells id) v
unfolding set_attribute write cell_of
accepts o id v = ground arith

reads_back :
    (o : MbusMaster) (written : ℕ) (v : DlmsValue) (id : ℕ)
    → get_attribute (set_attribute o written v).1 id
      ≡ reads_after cells written v id (get_attribute o id)
unfolding get_attribute set_attribute read write cell_of reads_after
reads_back o written v id = ground (
  arith,
  uint32_or-takes o.baud_rate v,
  uint8_or-takes o.primary_address v,
  uint16_or-takes o.response_timeout v,
)

pub class-IsAttributeStore : IsAttributeStore class cells unread
unfolding get_attribute read is_ok is_listed is_member
class-IsAttributeStore = record {
  answers = accepts;
  stores = reads_back;
  renames = λ ln o id. ground arith;
  lists = λ o id. ground arith;
}
