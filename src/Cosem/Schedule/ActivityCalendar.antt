-- ===== src/Cosem/Schedule/ActivityCalendar.antt =====
-- include/dlms/cosem/activity_calendar.hpp: the class ActivityCalendar.
use dlms_cosem_cpp.Base.{
  ℕ, ◌≡◌, true, false, ◌&&◌, if◌then◌else◌, List, [], ◌∷◌, ◌++◌, ◌==◌, leb, arith,
}
use dlms_cosem_cpp.Core.{Result, is_ok, ok, err, object_undefined}
use dlms_cosem_cpp.Axdr.Value.{DlmsValue, octets, string}
use dlms_cosem_cpp.Cosem.Object.{
  AttributeAccess, CosemClass, attribute, read, write, octets_or, string_or, make_dlms_array,
}
use dlms_cosem_cpp.Cosem.Object.Store.{
  Cell, answer, IsAttributeStore, cell_of, reads_after, is_listed, is_member, holds_octets,
  holds_string, octets_or-takes, string_or-takes,
}

pub record SeasonEntry : Type 0 where
  pub season_name : List ℕ
  pub week_name : List ℕ
  pub season_start : List ℕ

pub record WeekProfile : Type 0 where
  pub week_name : List ℕ
  pub monday : ℕ
  pub tuesday : ℕ
  pub wednesday : ℕ
  pub thursday : ℕ
  pub friday : ℕ
  pub saturday : ℕ
  pub sunday : ℕ

pub record DayProfile : Type 0 where
  pub day_id : ℕ
  pub schedule : List ℕ

pub record ActivityCalendar : Type 0 where
  pub logical_name : List ℕ
  pub calendar_name_active : List ℕ
  pub season_profile_active : List SeasonEntry
  pub week_profile_active : List WeekProfile
  pub day_profile_active : List DayProfile
  pub calendar_name_passive : List ℕ
  pub season_profile_passive : List SeasonEntry
  pub week_profile_passive : List WeekProfile
  pub day_profile_passive : List DayProfile
  pub activate_passive_calendar_time : List ℕ

unfoldable pub new_activity_calendar : List ℕ → ActivityCalendar
new_activity_calendar ln = record {
  logical_name = ln;
  calendar_name_active = [];
  season_profile_active = [];
  week_profile_active = [];
  day_profile_active = [];
  calendar_name_passive = [];
  season_profile_passive = [];
  week_profile_passive = [];
  day_profile_passive = [];
  activate_passive_calendar_time = [];
}

abbrev get_attributes : List AttributeAccess
get_attributes =
    attribute 1 "logical_name" true
    ∷ attribute 2 "calendar_name_active" false
    ∷ attribute 3 "season_profile_active" false
    ∷ attribute 4 "week_profile_table_active" false
    ∷ attribute 5 "day_profile_table_active" false
    ∷ attribute 6 "calendar_name_passive" false
    ∷ attribute 7 "season_profile_passive" false
    ∷ attribute 8 "week_profile_table_passive" false
    ∷ attribute 9 "day_profile_table_passive" false
    ∷ attribute 10 "activate_passive_calendar_time" false
    ∷ []

unfoldable pub get_attribute : ActivityCalendar → ℕ → Result DlmsValue
get_attribute o id =
    if id == 1
    then ok (octets o.logical_name)
    else (if id == 2
        then ok (string o.calendar_name_active)
        else (if id == 6
            then ok (string o.calendar_name_passive)
            else (if id == 10
                then ok (octets o.activate_passive_calendar_time)
                else (if leb 3 id && leb id 9
                    then ok (make_dlms_array [])
                    else err object_undefined))))

unfoldable pub set_attribute :
    ActivityCalendar → ℕ → DlmsValue → Result (Unit {0}) × ActivityCalendar
set_attribute o id v = write o id (
    (2, record o { calendar_name_active = string_or o.calendar_name_active v })
    ∷ (6, record o { calendar_name_passive = string_or o.calendar_name_passive v })
    ∷ (
      10,
      record o { activate_passive_calendar_time = octets_or o.activate_passive_calendar_time v },
    )
    ∷ [])

unfoldable pub activate_passive : ActivityCalendar → ActivityCalendar
activate_passive o = record o {
  calendar_name_active = o.calendar_name_passive;
  season_profile_active = o.season_profile_passive;
  week_profile_active = o.week_profile_passive;
  day_profile_active = o.day_profile_passive;
}

unfoldable pub add_week_profile : WeekProfile → ActivityCalendar → ActivityCalendar
add_week_profile wp o = record o { week_profile_active = o.week_profile_active ++ (wp ∷ []) }

unfoldable pub add_day_profile : DayProfile → ActivityCalendar → ActivityCalendar
add_day_profile dp o = record o { day_profile_active = o.day_profile_active ++ (dp ∷ []) }

abbrev pub class : CosemClass ActivityCalendar
class = record {
  class_id = 20;
  version = 0;
  class_name = "ActivityCalendar";
  logical_name = λ o. o.logical_name;
  set_logical_name = λ ln o. record o { logical_name = ln };
  get_attributes = get_attributes;
  get_attribute = get_attribute;
  set_attribute = set_attribute;
}

abbrev pub cells : List (ℕ × Cell)
cells = (2, holds_string) ∷ (6, holds_string) ∷ (10, holds_octets) ∷ []

-- Listed but never read.
abbrev pub unread : List ℕ
unread = []

accepts :
    (o : ActivityCalendar) (id : ℕ) (v : DlmsValue)
    → (set_attribute o id v).0 ≡ answer (cell_of cells id) v
unfolding set_attribute write cell_of
accepts o id v = ground arith

reads_back :
    (o : ActivityCalendar) (written : ℕ) (v : DlmsValue) (id : ℕ)
    → get_attribute (set_attribute o written v).1 id
      ≡ reads_after cells written v id (get_attribute o id)
unfolding get_attribute set_attribute read write cell_of reads_after
reads_back o written v id = ground (
  arith,
  string_or-takes o.calendar_name_active v,
  string_or-takes o.calendar_name_passive v,
  octets_or-takes o.activate_passive_calendar_time v,
)

pub class-IsAttributeStore : IsAttributeStore class cells unread
unfolding get_attribute read is_ok is_listed is_member
class-IsAttributeStore = record {
  answers = accepts;
  stores = reads_back;
  renames = λ ln o id. ground arith;
  lists = λ o id. ground arith;
}
