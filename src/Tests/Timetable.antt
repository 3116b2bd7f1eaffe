-- ===== src/Tests/Timetable.antt =====
-- Schedules and the minutes at which they fire.
use skifity.Prelude.{◌+◌, ◌-◌, ◌^◌, ◌≡◌, refl, true, false, [], ◌∷◌, arith}
use skifity.Prelude.Int.{pos, negsuc}
use skifity.Prelude.Text.{codes, fields}
use skifity.Cron.Number.{range_loop, max_int, range_of, contains_value}
use skifity.Cron.Schedule.{parse_field, Schedule, parse_schedule, ok}
use skifity.Cron.Next.{next_of, IsNext, next_of-IsNext}
use skifity.Cron.Fuel.{range_of_enough}
use skifity.Cron.Bounds.{Fits, parse_field-Fits}
use skifity.Cron.Range.{on_grid, range_of-on_grid, range_of_overflow}

range_of-on_grid_example :
    contains_value (range_of (pos 5) 59 15) (pos 50) ≡ on_grid 5 59 15 (pos 50)
range_of-on_grid_example =
    range_of-on_grid 5 59 15 (pos 50) (omega arith) (omega arith) (omega arith)

range_of_overflow_example :
    contains_value (range_of (pos 5) 59 max_int) (negsuc (2 ^ 64 - (5 + max_int) - 1)) ≡ true
range_of_overflow_example =
    range_of_overflow 5 59 max_int (omega arith) (omega arith) (omega arith) (omega arith)

abbrev weekly : Schedule
weekly = record {
  minutes = pos 30 ∷ [];
  hours = pos 0 ∷ [];
  days_of_week = pos 5 ∷ [];
  days_of_month = [];
  months = pos 3 ∷ [];
  day_of_month_restricted = false;
  day_of_week_restricted = true;
}

next_of-IsNext_example : IsNext weekly 1709164800 (next_of weekly 1709164800)
next_of-IsNext_example = next_of-IsNext weekly 1709164800

weekly_parsed :
    parse_schedule (codes "30 0 * 3 5")
    ≡ ok (record weekly { days_of_month = range_of (pos 1) 31 1 })
unfolding parse_schedule parse_field fields
weekly_parsed = refl

range_of_enough_example : range_loop 500 (pos 5) 59 max_int ≡ range_of (pos 5) 59 max_int
range_of_enough_example =
    range_of_enough 5 59 max_int 500 (omega arith) (omega arith) (omega arith) (omega arith)
      (omega arith)

parse_field-Fits_example : Fits 59 (parse_field (codes "10-20/5,5/9223372036854775807") 0 59)
parse_field-Fits_example = parse_field-Fits (codes "10-20/5,5/9223372036854775807") 0 59
