-- ===== src/Cosem/Link/GprsModemSetup.antt =====
-- include/dlms/cosem/gprs_modem_setup.hpp: the class GprsModemSetup. The comment
-- above the class makes attribute 4 a structure; in the code it is an octet string.
use dlms_cosem_cpp.Base.{ℕ, ◌≡◌, true, false, List, [], ◌∷◌, ◌++◌, map, arith}
use dlms_cosem_cpp.Core.{Result, is_ok}
use dlms_cosem_cpp.Axdr.Value.{DlmsValue, uint8, octets, string}
use dlms_cosem_cpp.Cosem.Object.{
  AttributeAccess, CosemClass, attribute, read, write, octets_or, string_or, make_dlms_array,
  make_dlms_structure,
}
use dlms_cosem_cpp.Cosem.Object.Store.{
  Cell, answer, IsAttributeStore, cell_of, reads_after, is_listed, is_member, holds_octets,
  holds_string, octets_or-takes, string_or-takes,
}

pub record PdpContext : Type 0 where
  pub pdp_context_id : ℕ
  pub pdp_type : List ℕ
  pub pdp_address : List ℕ
  pub pdp_apn : List ℕ

abbrev context_value : PdpContext → DlmsValue
context_value ctx = make_dlms_structure (
    uint8 ctx.pdp_context_id
    ∷ string ctx.pdp_type
    ∷ string ctx.pdp_address
    ∷ string ctx.pdp_apn
    ∷ [])

pub record GprsModemSetup : Type 0 where
  pub logical_name : List ℕ
  pub apn : List ℕ
  pub pin_code : List ℕ
  pub quality_of_service : List ℕ
  pub pdp_contexts : List PdpContext

unfoldable pub new_gprs_modem_setup : List ℕ → GprsModemSetup
new_gprs_modem_setup ln = record {
  logical_name = ln;
  apn = [];
  pin_code = [];
  quality_of_service = [];
  pdp_contexts = [];
}

abbrev get_attributes : List AttributeAccess
get_attributes =
    attribute 1 "logical_name" true
    ∷ attribute 2 "apn" false
    ∷ attribute 3 "pin_code" false
    ∷ attribute 4 "quality_of_service" false
    ∷ attribute 5 "pdp_context_parameters" false
    ∷ []

unfoldable pub get_attribute : GprsModemSetup → ℕ → Result DlmsValue
get_attribute o id = read id (
    (1, octets o.logical_name)
    ∷ (2, string o.apn)
    ∷ (3, string o.pin_code)
    ∷ (4, octets o.quality_of_service)
    ∷ (5, make_dlms_array (map context_value o.pdp_contexts))
    ∷ [])

unfoldable pub set_attribute : GprsModemSetup → ℕ → DlmsValue → Result (Unit {0}) × GprsModemSetup
set_attribute o id v = write o id (
    (2, record o { apn = string_or o.apn v })
    ∷ (3, record o { pin_code = string_or o.pin_code v })
    ∷ (4, record o { quality_of_service = octets_or o.quality_of_service v })
    ∷ [])

unfoldable pub set_apn : List ℕ → GprsModemSetup → GprsModemSetup
set_apn apn o = record o { apn = apn }

unfoldable pub set_pin : List ℕ → GprsModemSetup → GprsModemSetup
set_pin pin o = record o { pin_code = pin }

unfoldable pub add_pdp_context : ℕ → List ℕ → List ℕ → List ℕ → GprsModemSetup → GprsModemSetup
add_pdp_context id type addr apn o = record o {
  pdp_contexts =
      o.pdp_contexts
      ++ (record { pdp_context_id = id; pdp_type = type; pdp_address = addr; pdp_apn = apn } ∷ []);
}

abbrev pub class : CosemClass GprsModemSetup
class = record {
  class_id = 45;
  version = 0;
  class_name = "GprsModemSetup";
  logical_name = λ o. o.logical_name;
  set_logical_name = λ ln o. record o { logical_name = ln };
  get_attributes = get_attributes;
  get_attribute = get_attribute;
  set_attribute = set_attribute;
}

abbrev pub cells : List (ℕ × Cell)
cells = (2, holds_string) ∷ (3, holds_string) ∷ (4, holds_octets) ∷ []

-- Listed but never read.
abbrev pub unread : List ℕ
unread = []

accepts :
    (o : GprsModemSetup) (id : ℕ) (v : DlmsValue)
    → (set_attribute o id v).0 ≡ answer (cell_of cells id) v
unfolding set_attribute write cell_of
accepts o id v = ground arith

reads_back :
    (o : GprsModemSetup) (written : ℕ) (v : DlmsValue) (id : ℕ)
    → get_attribute (set_attribute o written v).1 id
      ≡ reads_after cells written v id (get_attribute o id)
unfolding get_attribute set_attribute read write cell_of reads_after
reads_back o written v id = ground (
  arith,
  string_or-takes o.apn v,
  string_or-takes o.pin_code v,
  octets_or-takes o.quality_of_service v,
)

pub class-IsAttributeStore : IsAttributeStore class cells unread
unfolding get_attribute read is_ok is_listed is_member
class-IsAttributeStore = record {
  answers = accepts;
  stores = reads_back;
  renames = λ ln o id. ground arith;
  lists = λ o id. ground arith;
}
