-- ===== src/Cron/Calendar.antt =====
-- What `nextCronTimeUTC` of internal/scheduler/application/cron.go uses of the package `time`. A time
-- is the number of nanoseconds since 1970-01-01 00:00 UTC; earlier times are not represented.
use edge_pilot.Base.{ℕ, ◌+◌, ◌-◌, ◌*◌, ◌/◌, ◌%◌, ◌≡◌, refl, ltb, if◌then◌else◌}

abbrev pub Time : Type 0
Time = ℕ

abbrev pub second : ℕ
second = 1000000000

abbrev pub minute : ℕ
minute = 60000000000

abbrev pub day : ℕ
day = 86400000000000

pub record Fields : Type 0 where
  pub minute_of : ℕ
  pub hour_of : ℕ
  pub day_of : ℕ
  pub month_of : ℕ
  pub weekday_of : ℕ

-- The day of a 400-year era that begins on 1 March, its year, and its day in that year.
abbrev era_day : ℕ → ℕ
era_day days = (days + 719468) % 146097

abbrev era_year : ℕ → ℕ
era_year doe = (doe - doe / 1460 + doe / 36524 - doe / 146096) / 365

abbrev year_day : ℕ → ℕ
year_day doe = let y = era_year doe in doe - (365 * y + y / 4 - y / 100)

abbrev month_index : ℕ → ℕ
month_index doy = (5 * doy + 2) / 153

unfoldable pub civil : Time → Fields
civil t =
    let days = t / day in
    let doy = year_day (era_day days) in
    let mp = month_index doy in
    record {
      minute_of = t / minute % 60;
      hour_of = t / (60 * minute) % 24;
      day_of = doy - (153 * mp + 2) / 5 + 1;
      month_of = if ltb mp 10 then mp + 3 else mp - 9;
      weekday_of = (days + 4) % 7;
    }

-- 2024-02-29 12:34:56 UTC was a Thursday.
leap_day :
    civil (1709210096 * second)
    ≡ record { minute_of = 34; hour_of = 12; day_of = 29; month_of = 2; weekday_of = 4 }
unfolding civil
leap_day = refl

-- `t.Truncate(time.Minute)`.
unfoldable pub truncate_minute : Time → Time
truncate_minute t = t - t % minute
