-- ===== src/Cosem/Schedule/SpecialDaysTable.antt =====
-- include/dlms/cosem/special_days_table.hpp: the class SpecialDaysTable.
pub mod Order
use Prim.Native.String.{String}
use dlms_cosem_cpp.Base.{
  ℕ, ◌+◌, ◌-◌, ◌%◌, ◌^◌, ◌≡◌, refl, ap, ap₂, sym, Option, some, none, ◌∙◌, Bool, true, false, ◌||◌,
  ◌&&◌, not, if◌then◌else◌, List, [], ◌∷◌, ◌++◌, ◌==◌, leb, ltb, length, map, take, drop, arith,
}
use dlms_cosem_cpp.Base.Int.{ℤ, pos, to_signed}
use dlms_cosem_cpp.DateTime.{CosemDateTime, datetime_bytes, datetime_of}
use dlms_cosem_cpp.Core.{Result, is_ok, ok, err, access_denied, object_undefined, invalid_data}
use dlms_cosem_cpp.Axdr.Value.{
  DlmsValue, DlmsValues, is_array, null, bool, int8, int16, int32, uint8, uint16, uint32, uint64,
  octets, string, array, structure, nil, cons,
}
use dlms_cosem_cpp.Cosem.Object.{
  AttributeAccess, CosemClass, attribute, read, write, default_name, bool_or, octets_or, string_or,
  int8_or, int16_or, int32_or, uint8_or, uint16_or, uint32_or, uint64_or, datetime_or, new_datetime,
  values_of, items_of, erase, insert, make_dlms_array, make_dlms_structure,
}
use dlms_cosem_cpp.Cosem.Object.Store.{
  Cell, takes, answer, IsAttributeStore, cell_of, reads_after, is_listed, is_member, held,
  held_pair, held_datetime, held_low_byte, word_of, refuses, drops, holds_any, holds_bool,
  holds_octets, holds_string, holds_int8, holds_int16, holds_int32, holds_uint8, holds_uint16,
  holds_uint32, holds_uint64, holds_low_byte, holds_datetime, holds_pair, needs_array, needs_uint8,
  bool_or-takes, octets_or-takes, string_or-takes, int8_or-takes, int16_or-takes, int32_or-takes,
  uint8_or-takes, uint16_or-takes, uint32_or-takes, uint64_or-takes, datetime_or-holds,
  items_of-values,
}

pub record SpecialDayEntry : Type 0 where
  pub index : ℕ
  pub date : List ℕ
  pub day_id : ℕ

abbrev day_value : SpecialDayEntry → DlmsValue
day_value entry =
    make_dlms_structure (uint16 entry.index ∷ octets entry.date ∷ uint8 entry.day_id ∷ [])

pub record SpecialDaysTable : Type 0 where
  pub logical_name : List ℕ
  pub entries : List SpecialDayEntry

unfoldable pub new_special_days_table : List ℕ → SpecialDaysTable
new_special_days_table ln = record { logical_name = ln; entries = [] }

abbrev get_attributes : List AttributeAccess
get_attributes = attribute 1 "logical_name" true ∷ attribute 2 "entries" false ∷ []

unfoldable pub get_attribute : SpecialDaysTable → ℕ → Result DlmsValue
get_attribute o id =
    read id ((1, octets o.logical_name) ∷ (2, make_dlms_array (map day_value o.entries)) ∷ [])

unfoldable pub set_attribute :
    SpecialDaysTable → ℕ → DlmsValue → Result (Unit {0}) × SpecialDaysTable
set_attribute o id v = write o id ((2, o) ∷ [])

abbrev pub entry : ℕ → List ℕ → ℕ → SpecialDayEntry
entry index date day_id = record { index = index; date = date; day_id = day_id }

unfoldable pub add_entry : ℕ → List ℕ → ℕ → SpecialDaysTable → SpecialDaysTable
add_entry index date day_id o = record o { entries = o.entries ++ (entry index date day_id ∷ []) }

unfoldable pub clear_entries : SpecialDaysTable → SpecialDaysTable
clear_entries o = record o { entries = [] }

unfoldable pub entry_count : SpecialDaysTable → ℕ
entry_count o = length o.entries

-- `none`: the iterator is past the end, and what `insert` does is undefined.
unfoldable pub execute_insert :
    ℕ → List ℕ → ℕ → SpecialDaysTable → Option (Result (List ℕ) × SpecialDaysTable)
execute_insert index date day_id o =
    if leb index (length o.entries)
    then some (ok [], record o { entries = insert index (entry index date day_id) o.entries })
    else none

unfoldable pub execute_delete : ℕ → SpecialDaysTable → Result (List ℕ) × SpecialDaysTable
execute_delete index o =
    if ltb index (length o.entries)
    then (ok [], record o { entries = erase index o.entries })
    else (err invalid_data, o)

abbrev pub class : CosemClass SpecialDaysTable
class = record {
  class_id = 11;
  version = 0;
  class_name = "SpecialDaysTable";
  logical_name = λ o. o.logical_name;
  set_logical_name = λ ln o. record o { logical_name = ln };
  get_attributes = get_attributes;
  get_attribute = get_attribute;
  set_attribute = set_attribute;
}

abbrev pub cells : List (ℕ × Cell)
cells = (2, drops) ∷ []

-- Listed but never read.
abbrev pub unread : List ℕ
unread = []

accepts :
    (o : SpecialDaysTable) (id : ℕ) (v : DlmsValue)
    → (set_attribute o id v).0 ≡ answer (cell_of cells id) v
unfolding set_attribute write cell_of
accepts o id v = ground arith

reads_back :
    (o : SpecialDaysTable) (written : ℕ) (v : DlmsValue) (id : ℕ)
    → get_attribute (set_attribute o written v).1 id
      ≡ reads_after cells written v id (get_attribute o id)
unfolding get_attribute set_attribute read write cell_of reads_after
reads_back o written v id = ground arith

pub class-IsAttributeStore : IsAttributeStore class cells unread
unfolding get_attribute read is_ok is_listed is_member
class-IsAttributeStore = record {
  answers = accepts;
  stores = reads_back;
  renames = λ ln o id. ground arith;
  lists = λ o id. ground arith;
}
