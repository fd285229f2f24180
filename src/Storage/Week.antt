-- ===== src/Storage/Week.antt =====
-- startOfWeek of internal/adapters/storage/json_file_storage.go, and what is used of package time.
use Prim.Native.Nat.{ℕ, ◌+◌, ◌-◌, ◌*◌, ◌/◌, ◌%◌, ◌≤◌, ◌<◌}
use mathlib.Core.Logic.{◌↔◌}
use mathlib.Core.Path.{◌≡◌}
use mathlib.Core.List.{◌++◌}
use native.Mathlib.Omega.{arith}
use gologger.Prelude.{ltb, if◌then◌else◌}
use gologger.Text.{Text}
use gologger.Text.Decimal.{padded}
use gologger.Clock.{Time, day, utc, zero_instant}

-- Time.Weekday of a time in UTC, with Sunday as 0: 1 January of the year 1 was a Monday.
abbrev pub weekday : ℕ → ℕ
weekday instant = (instant / day + 5) % 7

-- Time.Truncate(24 * time.Hour) counts from 1 January of the year 1.
abbrev pub truncate_day : ℕ → ℕ
truncate_day instant = instant - instant % day

unfoldable pub start_of_week : Time → Time
start_of_week value =
    let days_since_monday = (weekday (utc value).instant + 6) % 7 in
    record (utc value) { instant = truncate_day ((utc value).instant - days_since_monday * day) }

-- The date of a time in UTC, as a year that begins in March, and Time.Format("20060102").
module _ (instant : ℕ) where
  -- Days since 1 March of the year 0.
  abbrev days : ℕ
  days = instant / day - 425

  abbrev day_of_era : ℕ
  day_of_era = days % 146097

  abbrev year_of_era : ℕ
  year_of_era = (day_of_era - day_of_era / 1460 + day_of_era / 36524 - day_of_era / 146096) / 365

  abbrev day_of_year : ℕ
  day_of_year = day_of_era - (365 * year_of_era + year_of_era / 4 - year_of_era / 100)

  abbrev march_month : ℕ
  march_month = (5 * day_of_year + 2) / 153

  abbrev month : ℕ
  month = if ltb march_month 10 then march_month + 3 else march_month - 9

  abbrev year : ℕ
  year = days / 146097 * 400 + year_of_era + (if ltb march_month 10 then 0 else 1)

  abbrev day_of_month : ℕ
  day_of_month = day_of_year - (153 * march_month + 2) / 5 + 1

  unfoldable pub format_date : Text
  format_date = padded 4 year ++ padded 2 month ++ padded 2 day_of_month

start_of_week-bounds :
    (value : Time)
    → zero_instant ≤ value.instant
    → let start = start_of_week value in
      (weekday start.instant ≡ 1)
      × (start.instant % day ≡ 0)
      × (start.instant ≤ value.instant)
      × (value.instant < start.instant + 7 * day)
unfolding start_of_week
start_of_week-bounds value h = omega arith

start_of_week-same :
    (a b : Time)
    → zero_instant ≤ a.instant
    → zero_instant ≤ b.instant
    → (start_of_week a).instant ≤ b.instant
    → b.instant < (start_of_week a).instant + 7 * day
    → start_of_week b ≡ start_of_week a
unfolding start_of_week
start_of_week-same a b ha hb from to = ground arith

-- For times that are not before the zero time: startOfWeek returns the last midnight before or at the
-- time, in UTC, that begins a Monday; and another time has the same start exactly when it is from this
-- start on and less than seven days after it.
pub start_of_week_lem :
    (value other : Time)
    → zero_instant ≤ value.instant
    → zero_instant ≤ other.instant
    → let start = start_of_week value in
      (weekday start.instant ≡ 1)
      × (start.instant % day ≡ 0)
      × (start.instant ≤ value.instant)
      × (value.instant < start.instant + 7 * day)
      × ((start_of_week other ≡ start)
          ↔ ((start.instant ≤ other.instant) × (other.instant < start.instant + 7 * day)))
start_of_week_lem value other h k =
    let (monday, midnight, from, to) = start_of_week-bounds value h in
    let (_, _, begun, within) = start_of_week-bounds other k in
    (
      monday,
      midnight,
      from,
      to,
      (
        λ same. (rw same at begun, rw same at within),
        λ inside. start_of_week-same value other h k inside.0 inside.1,
      ),
    )
