-- ===== src/DateTime/Runs.antt =====
-- A run of include/dlms/core/datetime.hpp on one date and time.
use dlms_cosem_cpp.Base.{◌≡◌, arith, true, false, none, some}
use dlms_cosem_cpp.Base.Int.{negsuc}
use dlms_cosem_cpp.DateTime.{CosemDateTime, datetime_of, datetime_bytes}
use dlms_cosem_cpp.DateTime.Laws.{IsDateTime, datetime_of-datetime_bytes}

-- Every second of a minute in 2024, in daylight saving time, an hour east of UTC.
abbrev summer : CosemDateTime
summer = record {
  date = record { year = some 2024; month = some 6; day = none; day_of_week = none };
  time = record { hour = some 12; minute = some 0; second = none; hundredths = none };
  deviation = some (negsuc 59);
  clock_status = record {
    invalid = false;
    doubtful = false;
    different_base = false;
    invalid_status = false;
    daylight_saving_active = true;
  };
}

summer-IsDateTime : IsDateTime summer
summer-IsDateTime = record {
  year_fits = omega arith;
  month_fits = omega arith;
  day_fits = tt;
  day_of_week_fits = tt;
  hour_fits = omega arith;
  minute_fits = omega arith;
  second_fits = tt;
  hundredths_fits = tt;
  deviation_fits = (omega arith, λ e. cc);
}

datetime_of-datetime_bytes_example : datetime_of (datetime_bytes summer) ≡ summer
datetime_of-datetime_bytes_example = datetime_of-datetime_bytes summer summer-IsDateTime
