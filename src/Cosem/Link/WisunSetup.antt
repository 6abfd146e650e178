-- ===== src/Cosem/Link/WisunSetup.antt =====
-- include/dlms/cosem/wisun_setup.hpp: the class WisunSetup.
use dlms_cosem_cpp.Base.{ℕ, ◌≡◌, true, List, [], ◌∷◌, arith}
use dlms_cosem_cpp.Core.{Result, is_ok}
use dlms_cosem_cpp.Axdr.Value.{DlmsValue, uint8, uint16, octets}
use dlms_cosem_cpp.Cosem.Object.{
  AttributeAccess, CosemClass, attribute, read, write, octets_or, uint8_or, uint16_or,
}
use dlms_cosem_cpp.Cosem.Object.Store.{
  Cell, answer, IsAttributeStore, cell_of, reads_after, is_listed, is_member, holds_octets,
  holds_uint8, holds_uint16, octets_or-takes, uint8_or-takes, uint16_or-takes,
}

pub data Mode : Type 0 where
  mode_router mode_border_router mode_sleepy_device : Mode

-- A field of this type holds any byte: `static_cast` makes every byte a value of it.
abbrev pub mode_code : Mode → ℕ
mode_code mode_router = 0
mode_code mode_border_router = 1
mode_code mode_sleepy_device = 2

pub record WisunSetup : Type 0 where
  pub logical_name : List ℕ
  pub network_id : List ℕ
  pub channel : ℕ
  pub pan_id : ℕ
  pub mode : ℕ

unfoldable pub new_wisun_setup : List ℕ → WisunSetup
new_wisun_setup ln = record {
  logical_name = ln;
  network_id = [];
  channel = 0;
  pan_id = 65535;
  mode = mode_code mode_router;
}

abbrev get_attributes : List AttributeAccess
get_attributes =
    attribute 1 "logical_name" true
    ∷ attribute 2 "network_id" true
    ∷ attribute 3 "channel" true
    ∷ attribute 4 "pan_id" true
    ∷ attribute 5 "mode" true
    ∷ []

unfoldable pub get_attribute : WisunSetup → ℕ → Result DlmsValue
get_attribute o id = read id (
    (1, octets o.logical_name)
    ∷ (2, octets o.network_id)
    ∷ (3, uint8 o.channel)
    ∷ (4, uint16 o.pan_id)
    ∷ (5, uint8 o.mode)
    ∷ [])

unfoldable pub set_attribute : WisunSetup → ℕ → DlmsValue → Result (Unit {0}) × WisunSetup
set_attribute o id v = write o id (
    (2, record o { network_id = octets_or o.network_id v })
    ∷ (3, record o { channel = uint8_or o.channel v })
    ∷ (4, record o { pan_id = uint16_or o.pan_id v })
    ∷ (5, record o { mode = uint8_or o.mode v })
    ∷ [])

unfoldable pub set_channel : ℕ → WisunSetup → WisunSetup
set_channel channel o = record o { channel = channel }

unfoldable pub set_mode : ℕ → WisunSetup → WisunSetup
set_mode mode o = record o { mode = mode }

abbrev pub class : CosemClass WisunSetup
class = record {
  class_id = 44;
  version = 0;
  class_name = "WisunSetup";
  logical_name = λ o. o.logical_name;
  set_logical_name = λ ln o. record o { logical_name = ln };
  get_attributes = get_attributes;
  get_attribute = get_attribute;
  set_attribute = set_attribute;
}

abbrev pub cells : List (ℕ × Cell)
cells = (2, holds_octets) ∷ (3, holds_uint8) ∷ (4, holds_uint16) ∷ (5, holds_uint8) ∷ []

-- Listed but never read.
abbrev pub unread : List ℕ
unread = []

accepts :
    (o : WisunSetup) (id : ℕ) (v : DlmsValue)
    → (set_attribute o id v).0 ≡ answer (cell_of cells id) v
unfolding set_attribute write cell_of
accepts o id v = ground arith

reads_back :
    (o : WisunSetup) (written : ℕ) (v : DlmsValue) (id : ℕ)
    → get_attribute (set_attribute o written v).1 id
      ≡ reads_after cells written v id (get_attribute o id)
unfolding get_attribute set_attribute read write cell_of reads_after
reads_back o written v id = ground (
  arith,
  octets_or-takes o.network_id v,
  uint8_or-takes o.channel v,
  uint16_or-takes o.pan_id v,
  uint8_or-takes o.mode v,
)

pub class-IsAttributeStore : IsAttributeStore class cells unread
unfolding get_attribute read is_ok is_listed is_member
class-IsAttributeStore = record {
  answers = accepts;
  stores = reads_back;
  renames = λ ln o id. ground arith;
  lists = λ o id. ground arith;
}
