-- ===== src/Cosem/Metering/ProfileGeneric.antt =====
-- include/dlms/cosem/profile_generic.hpp: the class ProfileGeneric.
use dlms_cosem_cpp.Base.{ℕ, ◌≡◌, true, false, List, [], ◌∷◌, map, arith}
use dlms_cosem_cpp.Base.Int.{ℤ}
use dlms_cosem_cpp.Core.{Result, is_ok}
use dlms_cosem_cpp.Axdr.Value.{DlmsValue, uint32, octets}
use dlms_cosem_cpp.Cosem.Object.{
  AttributeAccess, CosemClass, attribute, read, write, uint32_or, make_dlms_array,
  make_dlms_structure,
}
use dlms_cosem_cpp.Cosem.Object.Store.{
  Cell, answer, IsAttributeStore, cell_of, reads_after, is_listed, is_member, holds_uint32,
  uint32_or-takes,
}

pub record ProfileGeneric : Type 0 where
  pub logical_name : List ℕ
  pub buffer : List (List DlmsValue)
  pub capture_objects : List (List ℕ × ℤ)
  pub capture_period : ℕ
  pub entries_in_use : ℕ
  pub profile_entries : ℕ

unfoldable pub new_profile_generic : List ℕ → ProfileGeneric
new_profile_generic ln = record {
  logical_name = ln;
  buffer = [];
  capture_objects = [];
  capture_period = 0;
  entries_in_use = 0;
  profile_entries = 0;
}

abbrev get_attributes : List AttributeAccess
get_attributes =
    attribute 1 "logical_name" true
    ∷ attribute 2 "buffer" false
    ∷ attribute 3 "capture_objects" true
    ∷ attribute 4 "capture_period" true
    ∷ attribute 7 "entries_in_use" false
    ∷ attribute 8 "profile_entries" true
    ∷ []

unfoldable pub get_attribute : ProfileGeneric → ℕ → Result DlmsValue
get_attribute o id = read id (
    (1, octets o.logical_name)
    ∷ (2, make_dlms_array (map make_dlms_structure o.buffer))
    ∷ (7, uint32 o.entries_in_use)
    ∷ (8, uint32 o.profile_entries)
    ∷ (4, uint32 o.capture_period)
    ∷ [])

unfoldable pub set_attribute : ProfileGeneric → ℕ → DlmsValue → Result (Unit {0}) × ProfileGeneric
set_attribute o id v = write o id (
    (4, record o { capture_period = uint32_or o.capture_period v })
    ∷ (8, record o { profile_entries = uint32_or o.profile_entries v })
    ∷ [])

abbrev pub class : CosemClass ProfileGeneric
class = record {
  class_id = 7;
  version = 0;
  class_name = "ProfileGeneric";
  logical_name = λ o. o.logical_name;
  set_logical_name = λ ln o. record o { logical_name = ln };
  get_attributes = get_attributes;
  get_attribute = get_attribute;
  set_attribute = set_attribute;
}

abbrev pub cells : List (ℕ × Cell)
cells = (4, holds_uint32) ∷ (8, holds_uint32) ∷ []

-- Listed but never read.
abbrev pub unread : List ℕ
unread = 3 ∷ []

accepts :
    (o : ProfileGeneric) (id : ℕ) (v : DlmsValue)
    → (set_attribute o id v).0 ≡ answer (cell_of cells id) v
unfolding set_attribute write cell_of
accepts o id v = ground arith

reads_back :
    (o : ProfileGeneric) (written : ℕ) (v : DlmsValue) (id : ℕ)
    → get_attribute (set_attribute o written v).1 id
      ≡ reads_after cells written v id (get_attribute o id)
unfolding get_attribute set_attribute read write cell_of reads_after
reads_back o written v id =
    ground (arith, uint32_or-takes o.capture_period v, uint32_or-takes o.profile_entries v)

pub class-IsAttributeStore : IsAttributeStore class cells unread
unfolding get_attribute read is_ok is_listed is_member
class-IsAttributeStore = record {
  answers = accepts;
  stores = reads_back;
  renames = λ ln o id. ground arith;
  lists = λ o id. ground arith;
}
