-- ===== src/Cosem/Schedule.antt =====
-- The classes of include/dlms/cosem for time: the clock, calendars, special days and tariffs.
pub mod Clock
pub mod ClockControl
pub mod ActivityCalendar
pub mod SpecialDaysTable
pub mod TariffPlan
pub mod TariffTable
