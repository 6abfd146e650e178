-- ===== src/Cosem/Limiter.antt =====
-- include/dlms/cosem/limiter.hpp: the class Limiter.
pub mod Attributes
pub mod Class
use dlms_cosem_cpp.Base.{
  ℕ, ◌-◌, ◌^◌, Bool, true, false, ◌||◌, List, [], ◌∷◌, ltb, ◌==◌, if◌then◌else◌,
}
use dlms_cosem_cpp.Base.Int.{ℤ, pos, negsuc, to_signed}
use dlms_cosem_cpp.Core.{Result, ok, err, object_undefined, access_denied}
use dlms_cosem_cpp.Axdr.Value.{
  DlmsValue, bool, int8, int32, uint16, octets, array, structure, nil, cons,
}

pub record LimiterMonitoredValue : Type 0 where
  pub class_id : ℕ
  pub logical_name : List ℕ
  pub attribute_id : ℕ

pub record Limiter : Type 0 where
  pub own_name : List ℕ
  pub monitored_value : LimiterMonitoredValue
  pub threshold_active : DlmsValue
  pub threshold_normal : DlmsValue
  pub threshold_emergency : DlmsValue
  pub min_over_threshold_duration : ℕ
  pub min_under_threshold_duration : ℕ
  pub emergency_profile_active : Bool

-- The name of an `ObisCode` that is made without arguments.
abbrev pub default_name : List ℕ
default_name = 0 ∷ 0 ∷ 0 ∷ 0 ∷ 0 ∷ 255 ∷ []

unfoldable pub new_limiter : List ℕ → Limiter
new_limiter ln = record {
  own_name = ln;
  monitored_value = record { class_id = 0; logical_name = default_name; attribute_id = 2 };
  threshold_active = int32 (pos 0);
  threshold_normal = int32 (pos 0);
  threshold_emergency = int32 (pos 0);
  min_over_threshold_duration = 0;
  min_under_threshold_duration = 0;
  emergency_profile_active = false;
}

abbrev pub monitored : LimiterMonitoredValue → DlmsValue
monitored m = structure (
    cons (uint16 m.class_id)
      (cons (octets m.logical_name) (cons (int8 (to_signed (2 ^ 8) m.attribute_id)) nil)))

unfoldable pub get_attribute : Limiter → ℕ → Result DlmsValue
get_attribute o id =
    if id == 1
    then ok (octets o.own_name)
    else (if id == 2
        then ok (monitored o.monitored_value)
        else (if id == 3
            then ok o.threshold_active
            else (if id == 4
                then ok o.threshold_normal
                else (if id == 5
                    then ok o.threshold_emergency
                    else (if id == 6
                        then ok (uint16 o.min_over_threshold_duration)
                        else (if id == 7
                            then ok (uint16 o.min_under_threshold_duration)
                            else (if id == 10
                                then ok (bool o.emergency_profile_active)
                                else (if id == 8 || id == 9 || id == 11
                                    then ok (array nil)
                                    else err object_undefined))))))))

-- `if (auto* p = std::get_if<…>(&v)) … = *p;`: a value of another type changes nothing.
abbrev pub number_or : ℕ → DlmsValue → ℕ
number_or old (uint16 n) = n
number_or old _ = old

abbrev pub flag_or : Bool → DlmsValue → Bool
flag_or old (bool b) = b
flag_or old _ = old

unfoldable pub set_attribute : Limiter → ℕ → DlmsValue → Result (Unit {0}) × Limiter
set_attribute o id v =
    if id == 3
    then (ok tt, record o { threshold_active = v })
    else (if id == 4
        then (ok tt, record o { threshold_normal = v })
        else (if id == 5
            then (ok tt, record o { threshold_emergency = v })
            else (if id == 6
                then (
                  ok tt,
                  record o {
                    min_over_threshold_duration = number_or o.min_over_threshold_duration v;
                  },
                )
                else (if id == 7
                    then (
                      ok tt,
                      record o {
                        min_under_threshold_duration = number_or o.min_under_threshold_duration v;
                      },
                    )
                    else (if id == 10
                        then (
                          ok tt,
                          record o {
                            emergency_profile_active = flag_or o.emergency_profile_active v;
                          },
                        )
                        else (err access_denied, o))))))

unfoldable pub set_monitored_value : ℕ → List ℕ → ℕ → Limiter → Limiter
set_monitored_value class_id ln attr_id o = record o {
  monitored_value = record { class_id = class_id; logical_name = ln; attribute_id = attr_id };
}

-- `>` on int32_t
abbrev pub greater : ℤ → ℤ → Bool
greater (pos a) (pos b) = ltb b a
greater (pos a) (negsuc b) = true
greater (negsuc a) (pos b) = false
greater (negsuc a) (negsuc b) = ltb a b

abbrev over : DlmsValue → DlmsValue → Bool
over (int32 a) (int32 b) = greater a b
over _ _ = false

unfoldable pub is_over_threshold : Limiter → DlmsValue → Bool
is_over_threshold o current_value = over current_value o.threshold_active
