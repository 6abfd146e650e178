-- ===== src/Cosem/Limiter/Class.antt =====
-- include/dlms/cosem/limiter.hpp: the class Limiter as a store of attributes.
use dlms_cosem_cpp.Base.{ℕ, ◌≡◌, refl, Bool, true, false, if◌then◌else◌, List, [], ◌∷◌, arith}
use dlms_cosem_cpp.Core.{is_ok}
use dlms_cosem_cpp.Axdr.Value.{DlmsValue, bool, uint16}
use dlms_cosem_cpp.Cosem.Object.{AttributeAccess, CosemClass, attribute}
use dlms_cosem_cpp.Cosem.Object.Store.{
  Cell, takes, answer, IsAttributeStore, cell_of, reads_after, is_listed, is_member, holds_any,
  holds_bool, holds_uint16,
}
use dlms_cosem_cpp.Cosem.Limiter.{Limiter, get_attribute, set_attribute, number_or, flag_or}

abbrev get_attributes : List AttributeAccess
get_attributes =
    attribute 1 "logical_name" true
    ∷ attribute 2 "monitored_value" false
    ∷ attribute 3 "threshold_active" false
    ∷ attribute 4 "threshold_normal" false
    ∷ attribute 5 "threshold_emergency" false
    ∷ attribute 6 "min_over_threshold_duration" false
    ∷ attribute 7 "min_under_threshold_duration" false
    ∷ attribute 8 "emergency_profile" false
    ∷ attribute 9 "emergency_profile_group" false
    ∷ attribute 10 "emergency_profile_active" false
    ∷ attribute 11 "actions" false
    ∷ []

abbrev pub class : CosemClass Limiter
class = record {
  class_id = 30;
  version = 0;
  class_name = "Limiter";
  logical_name = λ o. o.own_name;
  set_logical_name = λ ln o. record o { own_name = ln };
  get_attributes = get_attributes;
  get_attribute = get_attribute;
  set_attribute = set_attribute;
}

abbrev pub cells : List (ℕ × Cell)
cells =
    (3, holds_any)
    ∷ (4, holds_any)
    ∷ (5, holds_any)
    ∷ (6, holds_uint16)
    ∷ (7, holds_uint16)
    ∷ (10, holds_bool)
    ∷ []

number_or-takes :
    (old : ℕ) (v : DlmsValue)
    → uint16 (number_or old v) ≡ (if takes holds_uint16 v then v else uint16 old)
number_or-takes old (uint16 n) = refl
number_or-takes old _ = refl

flag_or-takes :
    (old : Bool) (v : DlmsValue)
    → bool (flag_or old v) ≡ (if takes holds_bool v then v else bool old)
flag_or-takes old (bool b) = refl
flag_or-takes old _ = refl

accepts :
    (o : Limiter) (id : ℕ) (v : DlmsValue) → (set_attribute o id v).0 ≡ answer (cell_of cells id) v
unfolding set_attribute cell_of
accepts o id v = ground arith

reads_back :
    (o : Limiter) (written : ℕ) (v : DlmsValue) (id : ℕ)
    → get_attribute (set_attribute o written v).1 id
      ≡ reads_after cells written v id (get_attribute o id)
unfolding get_attribute set_attribute cell_of reads_after
reads_back o written v id = ground (
  arith,
  number_or-takes o.min_over_threshold_duration v,
  number_or-takes o.min_under_threshold_duration v,
  flag_or-takes o.emergency_profile_active v,
)

pub class-IsAttributeStore : IsAttributeStore class cells []
unfolding get_attribute is_ok is_listed is_member
class-IsAttributeStore = record {
  answers = accepts;
  stores = reads_back;
  renames = λ ln o id. ground arith;
  lists = λ o id. ground arith;
}
