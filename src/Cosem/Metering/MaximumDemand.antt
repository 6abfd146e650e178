-- ===== src/Cosem/Metering/MaximumDemand.antt =====
-- include/dlms/cosem/maximum_demand.hpp: the class MaximumDemand. The comment
-- above the class gives attributes 2 and 4 narrower types than the code does.
use dlms_cosem_cpp.Base.{ℕ, ◌≡◌, true, false, List, [], ◌∷◌, arith}
use dlms_cosem_cpp.DateTime.{CosemDateTime, datetime_bytes}
use dlms_cosem_cpp.Core.{Result, is_ok}
use dlms_cosem_cpp.Axdr.Value.{DlmsValue, uint8, uint16, uint64, octets}
use dlms_cosem_cpp.Cosem.Object.{
  AttributeAccess, CosemClass, attribute, read, write, uint16_or, uint64_or, datetime_or,
  new_datetime,
}
use dlms_cosem_cpp.Cosem.Object.Store.{
  Cell, answer, IsAttributeStore, cell_of, reads_after, is_listed, is_member, holds_uint16,
  holds_uint64, holds_datetime, uint16_or-takes, uint64_or-takes, datetime_or-holds,
}

pub record MaximumDemand : Type 0 where
  pub logical_name : List ℕ
  pub value : ℕ
  pub start_time : CosemDateTime
  pub duration : ℕ
  pub status : ℕ

unfoldable pub new_maximum_demand : List ℕ → MaximumDemand
new_maximum_demand ln = record {
  logical_name = ln;
  value = 0;
  start_time = new_datetime;
  duration = 0;
  status = 0;
}

abbrev get_attributes : List AttributeAccess
get_attributes =
    attribute 1 "logical_name" true
    ∷ attribute 2 "value" false
    ∷ attribute 3 "start_time" false
    ∷ attribute 4 "duration" false
    ∷ attribute 5 "status" false
    ∷ []

unfoldable pub get_attribute : MaximumDemand → ℕ → Result DlmsValue
get_attribute o id = read id (
    (1, octets o.logical_name)
    ∷ (2, uint64 o.value)
    ∷ (3, octets (datetime_bytes o.start_time))
    ∷ (4, uint16 o.duration)
    ∷ (5, uint8 o.status)
    ∷ [])

unfoldable pub set_attribute : MaximumDemand → ℕ → DlmsValue → Result (Unit {0}) × MaximumDemand
set_attribute o id v = write o id (
    (2, record o { value = uint64_or o.value v })
    ∷ (3, record o { start_time = datetime_or o.start_time v })
    ∷ (4, record o { duration = uint16_or o.duration v })
    ∷ [])

unfoldable pub set_value : ℕ → MaximumDemand → MaximumDemand
set_value val o = record o { value = val }

abbrev pub class : CosemClass MaximumDemand
class = record {
  class_id = 9;
  version = 0;
  class_name = "MaximumDemand";
  logical_name = λ o. o.logical_name;
  set_logical_name = λ ln o. record o { logical_name = ln };
  get_attributes = get_attributes;
  get_attribute = get_attribute;
  set_attribute = set_attribute;
}

abbrev pub cells : List (ℕ × Cell)
cells = (2, holds_uint64) ∷ (3, holds_datetime) ∷ (4, holds_uint16) ∷ []

-- Listed but never read.
abbrev pub unread : List ℕ
unread = []

accepts :
    (o : MaximumDemand) (id : ℕ) (v : DlmsValue)
    → (set_attribute o id v).0 ≡ answer (cell_of cells id) v
unfolding set_attribute write cell_of
accepts o id v = ground arith

reads_back :
    (o : MaximumDemand) (written : ℕ) (v : DlmsValue) (id : ℕ)
    → get_attribute (set_attribute o written v).1 id
      ≡ reads_after cells written v id (get_attribute o id)
unfolding get_attribute set_attribute read write cell_of reads_after
reads_back o written v id = ground (
  arith,
  uint64_or-takes o.value v,
  uint16_or-takes o.duration v,
  datetime_or-holds o.start_time v,
)

pub class-IsAttributeStore : IsAttributeStore class cells unread
unfolding get_attribute read is_ok is_listed is_member
class-IsAttributeStore = record {
  answers = accepts;
  stores = reads_back;
  renames = λ ln o id. ground arith;
  lists = λ o id. ground arith;
}
