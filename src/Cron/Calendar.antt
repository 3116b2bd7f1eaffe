-- ===== src/Cron/Calendar.antt =====
-- The times that internal/cron/cron.go reads from package time: a time is its minutes since
-- 1970-01-01 00:00 UTC, and dates are those of the Gregorian calendar.
pub mod Years
use skifity.Prelude.{
  ltb, if◌then◌else◌, ◌==◌, nat_eq, ℕ, zero, suc, ◌+◌, ◌-◌, ◌*◌, ◌/◌, ◌%◌, ◌≡◌, refl, Bool, not,
  ◌&&◌, ◌||◌,
}
use skifity.Cron.Schedule.{Moment}

is_leap : ℕ → Bool
is_leap y = ((y % 4) == 0 && not ((y % 100) == 0)) || (y % 400) == 0

year_length : ℕ → ℕ
unfolding is_leap
year_length y = if is_leap y then 366 else 365

abbrev month_length : ℕ → Bool → ℕ
month_length m leap =
    if m == 2
    then (if leap then 29 else 28)
    else if m == 4 || (m == 6 || (m == 9 || m == 11))
    then 30
    else 31

pub record Date : Type 0 where
  pub year : ℕ
  pub month : ℕ
  pub day : ℕ

-- The month, from a month and the days since it began.
month_from : ℕ → ℕ → Bool → ℕ → ℕ × ℕ
month_from zero m leap d = (m, d + 1)
month_from (suc fuel) m leap d =
    let next = month_from fuel (m + 1) leap (d - month_length m leap) in
    if ltb d (month_length m leap) then (m, d + 1) else next

date_from : ℕ → ℕ → ℕ → Date
unfolding month_from year_length
date_from zero y d = record { year = y; month = 1; day = d + 1 }
date_from (suc fuel) y d =
    let next = date_from fuel (y + 1) (d - year_length y) in
    let (m, day_number) = month_from 11 1 (is_leap y) d in
    if ltb d (year_length y) then record { year = y; month = m; day = day_number } else next

-- The date of a count of days; no year has fewer than 365.
unfoldable pub date_of : ℕ → Date
unfolding date_from
date_of days = date_from (days / 365 + 1) 1970 days

unfoldable pub moment : ℕ → Moment
unfolding date_of
moment n =
    let date = date_of (n / 1440) in
    record {
      minute = n % 60;
      hour = (n / 60) % 24;
      day = date.day;
      month = date.month;
      weekday = (n / 1440 + 4) % 7;
    }

years_days : ℕ → ℕ → ℕ
unfolding year_length
years_days zero y = 0
years_days (suc n) y = year_length y + years_days n (y + 1)

months_days : ℕ → ℕ → Bool → ℕ
months_days zero m leap = 0
months_days (suc n) m leap = month_length m leap + months_days n (m + 1) leap

-- `AddDate(5, 0, 0)`: the same month and day five years on, and 1 March for a 29 February that
-- the later year has not.
unfoldable pub five_years_on : ℕ → ℕ
unfolding date_of years_days months_days
five_years_on n =
    let date = date_of (n / 1440) in
    let year = date.year + 5 in
    (years_days (year - 1970) 1970 + months_days (date.month - 1) 1 (is_leap year) + (date.day - 1))
      * 1440
    + n % 1440

leap_day :
    moment (1709164800 / 60) ≡ record { minute = 0; hour = 0; day = 29; month = 2; weekday = 4 }
unfolding moment
leap_day = refl

after_leap_day :
    moment (five_years_on (1709164800 / 60))
    ≡ record { minute = 0; hour = 0; day = 1; month = 3; weekday = 4 }
unfolding moment five_years_on
after_leap_day = refl
