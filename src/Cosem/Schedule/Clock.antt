-- ===== src/Cosem/Schedule/Clock.antt =====
-- include/dlms/cosem/clock.hpp: the class Clock.
use dlms_cosem_cpp.Base.{ℕ, ◌≡◌, true, false, List, [], ◌∷◌, arith}
use dlms_cosem_cpp.Base.Int.{ℤ, pos}
use dlms_cosem_cpp.DateTime.{CosemDateTime, datetime_bytes}
use dlms_cosem_cpp.Core.{Result, is_ok}
use dlms_cosem_cpp.Axdr.Value.{DlmsValue, int16, uint8, octets}
use dlms_cosem_cpp.Cosem.Object.{
  AttributeAccess, CosemClass, attribute, read, write, int16_or, datetime_or, new_datetime,
}
use dlms_cosem_cpp.Cosem.Object.Store.{
  Cell, answer, IsAttributeStore, cell_of, reads_after, is_listed, is_member, holds_int16,
  holds_datetime, int16_or-takes, datetime_or-holds,
}

pub record Clock : Type 0 where
  pub logical_name : List ℕ
  pub time : CosemDateTime
  pub timezone : ℤ
  pub status : ℕ

unfoldable pub new_clock : List ℕ → Clock
new_clock ln = record { logical_name = ln; time = new_datetime; timezone = pos 480; status = 0 }

abbrev get_attributes : List AttributeAccess
get_attributes =
    attribute 1 "logical_name" true
    ∷ attribute 2 "time" false
    ∷ attribute 3 "timezone" true
    ∷ attribute 4 "status" false
    ∷ []

unfoldable pub get_attribute : Clock → ℕ → Result DlmsValue
get_attribute o id = read id (
    (1, octets o.logical_name)
    ∷ (2, octets (datetime_bytes o.time))
    ∷ (3, int16 o.timezone)
    ∷ (4, uint8 o.status)
    ∷ [])

unfoldable pub set_attribute : Clock → ℕ → DlmsValue → Result (Unit {0}) × Clock
set_attribute o id v = write o id (
    (2, record o { time = datetime_or o.time v })
    ∷ (3, record o { timezone = int16_or o.timezone v })
    ∷ [])

abbrev pub class : CosemClass Clock
class = record {
  class_id = 8;
  version = 0;
  class_name = "Clock";
  logical_name = λ o. o.logical_name;
  set_logical_name = λ ln o. record o { logical_name = ln };
  get_attributes = get_attributes;
  get_attribute = get_attribute;
  set_attribute = set_attribute;
}

abbrev pub cells : List (ℕ × Cell)
cells = (2, holds_datetime) ∷ (3, holds_int16) ∷ []

-- Listed but never read.
abbrev pub unread : List ℕ
unread = []

accepts :
    (o : Clock) (id : ℕ) (v : DlmsValue) → (set_attribute o id v).0 ≡ answer (cell_of cells id) v
unfolding set_attribute write cell_of
accepts o id v = ground arith

reads_back :
    (o : Clock) (written : ℕ) (v : DlmsValue) (id : ℕ)
    → get_attribute (set_attribute o written v).1 id
      ≡ reads_after cells written v id (get_attribute o id)
unfolding get_attribute set_attribute read write cell_of reads_after
reads_back o written v id = ground (arith, datetime_or-holds o.time v, int16_or-takes o.timezone v)

pub class-IsAttributeStore : IsAttributeStore class cells unread
unfolding get_attribute read is_ok is_listed is_member
class-IsAttributeStore = record {
  answers = accepts;
  stores = reads_back;
  renames = λ ln o id. ground arith;
  lists = λ o id. ground arith;
}
