-- ===== src/Cosem/Link/AutoConnect.antt =====
-- include/dlms/cosem/auto_connect.hpp: the class AutoConnect.
use dlms_cosem_cpp.Base.{ℕ, ◌≡◌, Bool, true, not, List, [], ◌∷◌, ◌==◌, arith}
use dlms_cosem_cpp.Core.{Result, is_ok}
use dlms_cosem_cpp.Axdr.Value.{DlmsValue, uint8, uint16, octets}
use dlms_cosem_cpp.Cosem.Object.{
  AttributeAccess, CosemClass, attribute, read, write, uint8_or, uint16_or,
}
use dlms_cosem_cpp.Cosem.Object.Store.{
  Cell, answer, IsAttributeStore, cell_of, reads_after, is_listed, is_member, holds_uint8,
  holds_uint16, uint8_or-takes, uint16_or-takes,
}

pub data Mode : Type 0 where
  mode_disabled mode_enabled mode_auto : Mode

-- A field of this type holds any byte: `static_cast` makes every byte a value of it.
abbrev pub mode_code : Mode → ℕ
mode_code mode_disabled = 0
mode_code mode_enabled = 1
mode_code mode_auto = 2

pub record AutoConnect : Type 0 where
  pub logical_name : List ℕ
  pub mode : ℕ
  pub calling_interval : ℕ
  pub repetition_delay : ℕ
  pub repetition_count : ℕ

unfoldable pub new_auto_connect : List ℕ → AutoConnect
new_auto_connect ln = record {
  logical_name = ln;
  mode = mode_code mode_disabled;
  calling_interval = 3600;
  repetition_delay = 30;
  repetition_count = 3;
}

abbrev get_attributes : List AttributeAccess
get_attributes =
    attribute 1 "logical_name" true
    ∷ attribute 2 "mode" true
    ∷ attribute 3 "calling_interval" true
    ∷ attribute 4 "repetition_delay" true
    ∷ attribute 5 "repetition_count" true
    ∷ []

unfoldable pub get_attribute : AutoConnect → ℕ → Result DlmsValue
get_attribute o id = read id (
    (1, octets o.logical_name)
    ∷ (2, uint8 o.mode)
    ∷ (3, uint16 o.calling_interval)
    ∷ (4, uint16 o.repetition_delay)
    ∷ (5, uint8 o.repetition_count)
    ∷ [])

unfoldable pub set_attribute : AutoConnect → ℕ → DlmsValue → Result (Unit {0}) × AutoConnect
set_attribute o id v = write o id (
    (2, record o { mode = uint8_or o.mode v })
    ∷ (3, record o { calling_interval = uint16_or o.calling_interval v })
    ∷ (4, record o { repetition_delay = uint16_or o.repetition_delay v })
    ∷ (5, record o { repetition_count = uint8_or o.repetition_count v })
    ∷ [])

unfoldable pub set_mode : ℕ → AutoConnect → AutoConnect
set_mode mode o = record o { mode = mode }

unfoldable pub is_enabled : AutoConnect → Bool
is_enabled o = not (o.mode == mode_code mode_disabled)

abbrev pub class : CosemClass AutoConnect
class = record {
  class_id = 18;
  version = 0;
  class_name = "AutoConnect";
  logical_name = λ o. o.logical_name;
  set_logical_name = λ ln o. record o { logical_name = ln };
  get_attributes = get_attributes;
  get_attribute = get_attribute;
  set_attribute = set_attribute;
}

abbrev pub cells : List (ℕ × Cell)
cells = (2, holds_uint8) ∷ (3, holds_uint16) ∷ (4, holds_uint16) ∷ (5, holds_uint8) ∷ []

-- Listed but never read.
abbrev pub unread : List ℕ
unread = []

accepts :
    (o : AutoConnect) (id : ℕ) (v : DlmsValue)
    → (set_attribute o id v).0 ≡ answer (cell_of cells id) v
unfolding set_attribute write cell_of
accepts o id v = ground arith

reads_back :
    (o : AutoConnect) (written : ℕ) (v : DlmsValue) (id : ℕ)
    → get_attribute (set_attribute o written v).1 id
      ≡ reads_after cells written v id (get_attribute o id)
unfolding get_attribute set_attribute read write cell_of reads_after
reads_back o written v id = ground (
  arith,
  uint8_or-takes o.mode v,
  uint16_or-takes o.calling_interval v,
  uint16_or-takes o.repetition_delay v,
  uint8_or-takes o.repetition_count v,
)

pub class-IsAttributeStore : IsAttributeStore class cells unread
unfolding get_attribute read is_ok is_listed is_member
class-IsAttributeStore = record {
  answers = accepts;
  stores = reads_back;
  renames = λ ln o id. ground arith;
  lists = λ o id. ground arith;
}
