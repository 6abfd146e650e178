-- ===== src/Cosem/Limiter/Attributes.antt =====
-- include/dlms/cosem/limiter.hpp: writing an attribute against reading one.
use dlms_cosem_cpp.Base.{ℕ, ◌≡◌, ◌≢◌, refl, Bool, true, false, ◌||◌, ◌==◌, if◌then◌else◌, arith}
use dlms_cosem_cpp.Core.{ok}
use dlms_cosem_cpp.Axdr.Value.{DlmsValue, bool, uint16}
use dlms_cosem_cpp.Cosem.Limiter.{Limiter, number_or, flag_or, get_attribute, set_attribute}

abbrev is_uint16 : DlmsValue → Bool
is_uint16 (uint16 n) = true
is_uint16 _ = false

abbrev is_flag : DlmsValue → Bool
is_flag (bool b) = true
is_flag _ = false

-- The attribute takes a value of that type.
abbrev pub takes : ℕ → DlmsValue → Bool
takes id v =
    if id == 3 || id == 4 || id == 5
    then true
    else (if id == 6 || id == 7 then is_uint16 v else (if id == 10 then is_flag v else false))

number_or-taken : (old : ℕ) (v : DlmsValue) → is_uint16 v ≡ true → uint16 (number_or old v) ≡ v
number_or-taken old (uint16 n) h = refl
number_or-taken old _ h = cc

flag_or-taken : (old : Bool) (v : DlmsValue) → is_flag v ≡ true → bool (flag_or old v) ≡ v
flag_or-taken old (bool b) h = refl
flag_or-taken old _ h = cc

-- A value of a type that the attribute takes is accepted and read back.
pub get_attribute-set_attribute_same :
    (o : Limiter) (id : ℕ) (v : DlmsValue)
    → takes id v ≡ true
    → ((set_attribute o id v).0 ≡ ok tt) × (get_attribute (set_attribute o id v).1 id ≡ ok v)
unfolding get_attribute set_attribute
get_attribute-set_attribute_same o id v h = ground (
  arith,
  number_or-taken o.min_over_threshold_duration v,
  number_or-taken o.min_under_threshold_duration v,
  flag_or-taken o.emergency_profile_active v,
)

-- Whatever is written, accepted or not, every other attribute reads as before.
pub get_attribute-set_attribute_other :
    (o : Limiter) (id other : ℕ) (v : DlmsValue)
    → id ≢ other
    → get_attribute (set_attribute o id v).1 other ≡ get_attribute o other
unfolding get_attribute set_attribute
get_attribute-set_attribute_other o id other v h = ground arith
