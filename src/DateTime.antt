-- ===== src/DateTime.antt =====
-- include/dlms/core/datetime.hpp: dates, times and the clock status as bytes. An optional field is
-- empty where its byte or word says so.
pub mod Laws
mod Runs
use dlms_cosem_cpp.Base.{
  ℕ, ◌+◌, ◌*◌, ◌/◌, ◌%◌, ◌^◌, Bool, true, false, not, List, [], ◌∷◌, ◌++◌, get_or, drop, Option,
  none, some, ◌==◌, if◌then◌else◌, bit_and, bit_or,
}
use dlms_cosem_cpp.Base.Bits.{◌<<<◌, ◌>>>◌, u8}
use dlms_cosem_cpp.Base.Int.{ℤ, to_unsigned, to_signed}

pub record ClockStatus : Type 0 where
  pub invalid : Bool
  pub doubtful : Bool
  pub different_base : Bool
  pub invalid_status : Bool
  pub daylight_saving_active : Bool

unfoldable pub status_of : ℕ → ClockStatus
status_of b = record {
  invalid = not (bit_and b 0x01 == 0);
  doubtful = not (bit_and b 0x02 == 0);
  different_base = not (bit_and b 0x04 == 0);
  invalid_status = not (bit_and b 0x08 == 0);
  daylight_saving_active = not (bit_and b 0x80 == 0);
}

-- `if (c) b |= mask;`
abbrev pub or_mask : Bool → ℕ → ℕ → ℕ
or_mask c mask b = if c then bit_or b mask else b

unfoldable pub status_byte : ClockStatus → ℕ
status_byte s = or_mask s.daylight_saving_active 0x80 (
    or_mask s.invalid_status 0x08
      (or_mask s.different_base 0x04 (or_mask s.doubtful 0x02 (or_mask s.invalid 0x01 0))))

abbrev pub not_specified : ℕ
not_specified = 0xFF

abbrev pub not_specified_year : ℕ
not_specified_year = 0xFFFF

-- `(x == mark) ? std::nullopt : x`
abbrev pub unless : ℕ → ℕ → Option ℕ
unless mark x = if x == mark then none else some x

-- `o.value_or(mark)`
abbrev pub value_or : Option ℕ → ℕ → ℕ
value_or none mark = mark
value_or (some x) mark = x

pub record CosemDate : Type 0 where
  pub year : Option ℕ
  pub month : Option ℕ
  pub day : Option ℕ
  pub day_of_week : Option ℕ

unfoldable pub date_of : List ℕ → CosemDate
date_of d = record {
  year = unless not_specified_year (bit_or (get_or d 0 0 <<< 8) (get_or d 1 0));
  month = unless not_specified (get_or d 2 0);
  day = unless not_specified (get_or d 3 0);
  day_of_week = unless not_specified (get_or d 4 0);
}

unfoldable pub date_bytes : CosemDate → List ℕ
date_bytes date =
    let y = value_or date.year not_specified_year in
    u8 (bit_and (y >>> 8) 0xFF)
    ∷ u8 (bit_and y 0xFF)
    ∷ value_or date.month not_specified
    ∷ value_or date.day not_specified
    ∷ value_or date.day_of_week not_specified
    ∷ []

pub record CosemTime : Type 0 where
  pub hour : Option ℕ
  pub minute : Option ℕ
  pub second : Option ℕ
  pub hundredths : Option ℕ

unfoldable pub time_of : List ℕ → CosemTime
time_of d = record {
  hour = unless not_specified (get_or d 0 0);
  minute = unless not_specified (get_or d 1 0);
  second = unless not_specified (get_or d 2 0);
  hundredths = unless not_specified (get_or d 3 0);
}

unfoldable pub time_bytes : CosemTime → List ℕ
time_bytes t =
    value_or t.hour not_specified
    ∷ value_or t.minute not_specified
    ∷ value_or t.second not_specified
    ∷ value_or t.hundredths not_specified
    ∷ []

pub record CosemDateTime : Type 0 where
  pub date : CosemDate
  pub time : CosemTime
  pub deviation : Option ℤ
  pub clock_status : ClockStatus

-- DEV_NOT_SPEC, -32768, as the word of sixteen bits that it is.
abbrev pub deviation_not_specified : ℕ
deviation_not_specified = 0x8000

-- `dev == DEV_NOT_SPEC`, asked of the word that becomes `dev`.
abbrev pub deviation_of : ℕ → Option ℤ
deviation_of word = if word == deviation_not_specified then none else some (to_signed (2 ^ 16) word)

abbrev pub deviation_word : Option ℤ → ℕ
deviation_word none = deviation_not_specified
deviation_word (some z) = to_unsigned (2 ^ 16) z

unfoldable pub datetime_of : List ℕ → CosemDateTime
datetime_of d = record {
  date = date_of d;
  time = time_of (drop 5 d);
  deviation = deviation_of (bit_or (get_or d 9 0 <<< 8) (get_or d 10 0));
  clock_status = status_of (get_or d 11 0);
}

unfoldable pub datetime_bytes : CosemDateTime → List ℕ
datetime_bytes dt =
    let dev = deviation_word dt.deviation in
    date_bytes dt.date
    ++ (time_bytes dt.time
        ++ (u8 (bit_and (dev >>> 8) 0xFF)
            ∷ u8 (bit_and dev 0xFF)
            ∷ status_byte dt.clock_status
            ∷ []))
