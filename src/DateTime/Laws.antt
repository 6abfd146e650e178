-- ===== src/DateTime/Laws.antt =====
-- include/dlms/core/datetime.hpp: what `to_bytes` writes, `from_bytes` reads back.
use dlms_cosem_cpp.Base.{
  ℕ, ◌+◌, ◌-◌, ◌/◌, ◌%◌, ◌^◌, ◌<◌, ◌≡◌, ◌≢◌, refl, ap, ◌∙◌, arith, Bool, true, false, ◌&&◌,
  and_left, and_right, same, same→equal, all_bools, all_bools→holds, Option, none, some, ◌==◌,
  bit_and, bit_or,
}
use dlms_cosem_cpp.Base.Bits.{◌<<<◌, ◌>>>◌, u8, bit_or-fields, bit_and-mask}
use dlms_cosem_cpp.Base.Int.{ℤ, pos, negsuc, IsSigned, to_signed-to_unsigned, to_unsigned-lt}
use native.Mathlib.Nat.{mod-eq_of_lt}
use dlms_cosem_cpp.DateTime.{
  deviation_not_specified, ClockStatus, status_of, status_byte, not_specified, not_specified_year,
  unless, value_or, date_of, date_bytes, time_of, time_bytes, CosemDateTime, deviation_of,
  deviation_word, datetime_of, datetime_bytes,
}

-- What the C++ type of a field promises, and no value is the one that stands for none.
abbrev pub Fits : ℕ → Option ℕ → Type 0
Fits mark none = Unit {0}
Fits mark (some x) = x < mark

abbrev pub DeviationFits : Option ℤ → Type 0
DeviationFits none = Unit {0}
DeviationFits (some z) = IsSigned (2 ^ 16) z × (z ≢ negsuc 32767)

pub record IsDateTime (dt : CosemDateTime) : Type 0 where
  pub year_fits : Fits not_specified_year dt.date.year
  pub month_fits : Fits not_specified dt.date.month
  pub day_fits : Fits not_specified dt.date.day
  pub day_of_week_fits : Fits not_specified dt.date.day_of_week
  pub hour_fits : Fits not_specified dt.time.hour
  pub minute_fits : Fits not_specified dt.time.minute
  pub second_fits : Fits not_specified dt.time.second
  pub hundredths_fits : Fits not_specified dt.time.hundredths
  pub deviation_fits : DeviationFits dt.deviation

unless-value_or : (mark : ℕ) (o : Option ℕ) → Fits mark o → unless mark (value_or o mark) ≡ o
unless-value_or mark none h = ground arith
unless-value_or mark (some x) h = ground arith

-- A word of sixteen bits, put together of its two bytes.
word_back :
    (w : ℕ) → w < 2 ^ 16 → bit_or (u8 (bit_and (w >>> 8) 0xFF) <<< 8) (u8 (bit_and w 0xFF)) ≡ w
word_back w h =
    rw (bit_and-mask 8 (w / 2 ^ 8), bit_and-mask 8 w)
      (bit_or-fields 8 (w / 2 ^ 8 % 256 % 256) (w % 256 % 256) (omega arith) ∙ omega arith)

value_or-lt : (mark : ℕ) (o : Option ℕ) → Fits mark o → value_or o mark < mark + 1
value_or-lt mark none h = omega arith
value_or-lt mark (some x) h = omega arith

deviation_word-lt : (o : Option ℤ) → DeviationFits o → deviation_word o < 2 ^ 16
deviation_word-lt none h = omega arith
deviation_word-lt (some z) h = to_unsigned-lt (2 ^ 16) z h.0

deviation_back : (o : Option ℤ) → DeviationFits o → deviation_of (deviation_word o) ≡ o
deviation_back none h = refl
deviation_back (some (pos n)) h =
    let small : n % 2 ^ 16 ≡ n = mod-eq_of_lt (omega (arith, h.0)) in
    let other : (n % 2 ^ 16 == deviation_not_specified) ≡ false = ground (arith, small, h.0) in
    rw other (ap some (to_signed-to_unsigned (2 ^ 16) (pos n) h.0))
deviation_back (some (negsuc n)) h =
    let apart : n ≢ 32767 = λ e. h.1 (ap negsuc e) in
    let small : n % 2 ^ 16 ≡ n = mod-eq_of_lt (omega (arith, h.0)) in
    let other : (2 ^ 16 - 1 - n % 2 ^ 16 == deviation_not_specified) ≡ false =
      ground (arith, small, apart, h.0) in
    rw other (ap some (to_signed-to_unsigned (2 ^ 16) (negsuc n) h.0))

abbrev status : Bool → Bool → Bool → Bool → Bool → ClockStatus
status i d b s l = record {
  invalid = i;
  doubtful = d;
  different_base = b;
  invalid_status = s;
  daylight_saving_active = l;
}

abbrev read_back : Bool → Bool → Bool → Bool → Bool → Bool
read_back i d b s l =
    let r = status_of (status_byte (status i d b s l)) in
    same r.invalid i
    && (same r.doubtful d
        && (same r.different_base b
            && (same r.invalid_status s && same r.daylight_saving_active l)))

table :
    all_bools (λ i. all_bools λ d. all_bools λ b. all_bools λ s. all_bools (read_back i d b s))
    ≡ true
unfolding status_of status_byte
table = refl

same_flags :
    (x y : ClockStatus)
    → x.invalid ≡ y.invalid
    → x.doubtful ≡ y.doubtful
    → x.different_base ≡ y.different_base
    → x.invalid_status ≡ y.invalid_status
    → x.daylight_saving_active ≡ y.daylight_saving_active
    → x ≡ y
same_flags x y a e k c l = λ i. record {
  invalid = a i;
  doubtful = e i;
  different_base = k i;
  invalid_status = c i;
  daylight_saving_active = l i;
}

status_of-status_byte : (s : ClockStatus) → status_of (status_byte s) ≡ s
status_of-status_byte x =
    let i = x.invalid in
    let d = x.doubtful in
    let b = x.different_base in
    let s = x.invalid_status in
    let l = x.daylight_saving_active in
    let h_i =
      all_bools→holds
        (λ i. all_bools λ d. all_bools λ b. all_bools λ s. all_bools (read_back i d b s)) i table in
    let h_d =
      all_bools→holds (λ d. all_bools λ b. all_bools λ s. all_bools (read_back i d b s)) d h_i in
    let h_b = all_bools→holds (λ b. all_bools λ s. all_bools (read_back i d b s)) b h_d in
    let h_s = all_bools→holds (λ s. all_bools (read_back i d b s)) s h_b in
    let all : read_back i d b s l ≡ true = all_bools→holds (read_back i d b s) l h_s in
    let from_d = and_right _ _ all in
    let from_b = and_right _ _ from_d in
    let from_s = and_right _ _ from_b in
    same_flags (status_of (status_byte x)) x (same→equal _ _ (and_left _ _ all))
      (same→equal _ _ (and_left _ _ from_d)) (same→equal _ _ (and_left _ _ from_b))
      (same→equal _ _ (and_left _ _ from_s)) (same→equal _ _ (and_right _ _ from_s))

-- A date and time whose fields fit their types, none with the value that stands for an empty field,
-- comes back from its twelve bytes.
pub datetime_of-datetime_bytes :
    (dt : CosemDateTime) → IsDateTime dt → datetime_of (datetime_bytes dt) ≡ dt
unfolding datetime_of datetime_bytes date_of date_bytes time_of time_bytes
datetime_of-datetime_bytes dt h = rw (
  word_back (value_or dt.date.year not_specified_year)
      (value_or-lt not_specified_year dt.date.year h.year_fits),
  word_back (deviation_word dt.deviation) (deviation_word-lt dt.deviation h.deviation_fits),
  unless-value_or not_specified_year dt.date.year h.year_fits,
  unless-value_or not_specified dt.date.month h.month_fits,
  unless-value_or not_specified dt.date.day h.day_fits,
  unless-value_or not_specified dt.date.day_of_week h.day_of_week_fits,
  unless-value_or not_specified dt.time.hour h.hour_fits,
  unless-value_or not_specified dt.time.minute h.minute_fits,
  unless-value_or not_specified dt.time.second h.second_fits,
  unless-value_or not_specified dt.time.hundredths h.hundredths_fits,
  deviation_back dt.deviation h.deviation_fits,
  status_of-status_byte dt.clock_status,
)
