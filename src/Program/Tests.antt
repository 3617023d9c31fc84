-- ===== src/Program/Tests.antt =====
-- Instances and runs of programs.
use indigo_open_sprinkler_pl.Common.{
  ℕ, ◌+◌, ◌*◌, ◌/◌, ◌%◌, ◌≡◌, ◌⊎◌, ◌↔◌, refl, arith, true, false, none, some, if◌then◌else◌, ◌==◌,
  [], bit_test,
}
use indigo_open_sprinkler_pl.Common.Int.{◌+ℤ◌}
use indigo_open_sprinkler_pl.Program.{
  ProgramStruct, weekly, interval, unrestricted, odd, Tm, starttime_decode, check_day_match,
  check_match, oddeven_ok, type_ok, on_interval, divided_by, remainder_by, starts_today, over_night,
  any_start, minute_of, secs_per_day,
}
use indigo_open_sprinkler_pl.Program.Faults.{IsFaulty, check_match_fault}
use indigo_open_sprinkler_pl.Program.Match.{Hits, check_match_iff}

-- A calendar with months of 28 days, all of them Januaries.
abbrev calendar : ℕ → Tm
calendar t = record {
  wday = (t / secs_per_day + 4) % 7;
  mday = (t / secs_per_day) % 28 + 1;
  mon = 0;
}

-- Every day at 22:00, and 3 times more every 60 minutes: the last start is after midnight.
abbrev late : ProgramStruct
late = record {
  enabled = true;
  use_weather = false;
  oddeven = unrestricted;
  type = weekly;
  starttime_type = false;
  days0 = 127;
  days1 = 0;
  starttimes = λ i. if i == 0 then 1320 else if i == 1 then 3 else if i == 2 then 60 else 0;
  durations = λ sid. 60;
  name = [];
}

abbrev noon_of_day : ℕ → ℕ
noon_of_day n = n * 86400 + 43200

computes : ℕ
unfolding starttime_decode check_day_match check_match oddeven_ok type_ok on_interval divided_by
    remainder_by starts_today over_night any_start bit_test ◌+ℤ◌
computes = 0

-- 01:00 is the fourth start of the night, 02:00 would be a fifth.
runs :
    (check_match calendar 400 1100 late (20 * 86400 + 3600) ≡ some true)
    × (check_match calendar 400 1100 late (20 * 86400 + 7200) ≡ some false)
    × (check_match calendar 400 1100 late (20 * 86400 + 79200) ≡ some true)
    × (check_day_match calendar (record late { type = interval }) 0 ≡ none)
unfolding computes
runs = (refl, refl, refl, refl)

check_match_iff_example : (check_match calendar 400 1100 late (20 * 86400 + 3600) ≡ some true) ↔ (
    ((true ≡ true) × Hits 1320 60 3 (minute_of (20 * 86400 + 3600)))
    ⊎ ((true ≡ true) × Hits 1320 60 3 (minute_of (20 * 86400 + 3600) + 1440)))
unfolding computes
check_match_iff_example =
    check_match_iff calendar late (20 * 86400 + 3600) 1320 60 3 true (omega arith) (omega arith)
      (omega arith) refl refl refl refl 400 1100 true refl refl refl

-- An interval of 0 days.
abbrev broken : ProgramStruct
broken = record late { type = interval; days1 = 0 }

check_match_fault_example : (check_match calendar 400 1100 broken 0 ≡ none) ↔ IsFaulty broken
check_match_fault_example = check_match_fault calendar 400 1100 broken 0

abbrev odd_days : ProgramStruct
odd_days = record late { oddeven = odd }

abbrev every_third : ProgramStruct
every_third = record late { type = interval; days0 = 1; days1 = 3 }
