-- ===== src/Json/Tests.antt =====
-- Pages of the sample controller.
use indigo_open_sprinkler_pl.Common.{
  ◌⊎◌, ℕ, ◌+◌, ◌-◌, ◌≤◌, ◌<◌, ◌≡◌, refl, arith, true, false, List, [], ◌∷◌, ◌++◌, map, none, some,
  bit_test,
}
use indigo_open_sprinkler_pl.Common.Int.{pos, negsuc}
use indigo_open_sprinkler_pl.Http.{
  text_of, find_nonempty, find_key_val, find_value, copy_value, atol, signed_value, digits_value,
}
use indigo_open_sprinkler_pl.Program.{ProgramStruct, interval, drem_to_relative}
use indigo_open_sprinkler_pl.Controller.{
  LogRecord, log_rainsense, log_raindelay, log_waterlevel, run_record, value_record,
}
use indigo_open_sprinkler_pl.Controller.OptionIndex.{num_options}
use indigo_open_sprinkler_pl.Controller.Stations.{max_ext_boards}
use indigo_open_sprinkler_pl.Controller.Sample.{sample, evening, busy_queue}
use indigo_open_sprinkler_pl.Server.{html_ok}
use indigo_open_sprinkler_pl.Server.Programs.{parse_program}
use indigo_open_sprinkler_pl.Json.{
  codes, emit_p, print_argument, print_int, ultoa, digits, Argument, int,
}
use indigo_open_sprinkler_pl.Json.Programs.{
  program_numbers, program_text, program_byte, printed_days0,
}
use indigo_open_sprinkler_pl.Json.Roundtrip.{IsStored, parse_program-program_numbers}
use indigo_open_sprinkler_pl.Json.Pages.{number, remaining, server_json_status_main}
use indigo_open_sprinkler_pl.Json.Remaining.{remaining_lem}
use indigo_open_sprinkler_pl.Json.Options.{is_hidden, option_entry, server_json_options_main}
use indigo_open_sprinkler_pl.Json.Joined.{join, visible, server_json_options_main-join}
use indigo_open_sprinkler_pl.Json.Log.{
  log_text, is_printed, print_days, log_range, log_answer, wanted_type, server_json_log,
}
use indigo_open_sprinkler_pl.Json.Records.{is_printed-log_text}
use indigo_open_sprinkler_pl.Json.LogPage.{selected, print_days-join}
use indigo_open_sprinkler_pl.Json.LogRange.{server_json_log_ends}

format_run :
    emit_p
      (codes "a$D,$L$$\"$S\"")
      (int (negsuc 41) ∷ Argument.ulong 65536 ∷ Argument.text (codes "xy") ∷ [])
    ≡ codes "a-42,65536$\"xy\""
unfolding emit_p print_argument print_int ultoa digits
format_run = refl

-- Every third day, with a start before sunset.
abbrev third_day : ProgramStruct
third_day = record evening { type = interval; days0 = 1; days1 = 3 }

program_run : program_text 2 1728000 true third_day ≡ codes "[49,2,3,[1320,0,0,0],[60,60],\"\"]"
unfolding program_text program_numbers program_byte printed_days0 drem_to_relative emit_p
    print_argument print_int ultoa digits text_of
program_run = refl

third_day-IsStored : IsStored third_day
third_day-IsStored = record {
  byte0 = omega arith;
  byte1 = omega arith;
  remainder = λ e lt. omega arith;
  starts = λ i. ground arith;
  water_times = λ i. omega arith;
}

parse_program-program_numbers_example :
    let q =
      parse_program (codes "p") 2 1728000 (program_numbers 2 1728000 third_day ++ codes "p\"]") in
    (q.enabled ≡ true)
    × (q.use_weather ≡ third_day.use_weather)
    × (q.oddeven ≡ third_day.oddeven)
    × (q.type ≡ interval)
    × (q.starttime_type ≡ third_day.starttime_type)
    × (q.days0 ≡ 1)
    × (q.days1 ≡ 3)
    × ((i : ℕ) → i < 4 → q.starttimes i ≡ third_day.starttimes i)
    × ((sid : ℕ) → sid < 2 → q.durations sid ≡ third_day.durations sid)
    × (q.name ≡ codes "p")
parse_program-program_numbers_example =
    parse_program-program_numbers (codes "p") (codes "p\"]") 1 1728000 third_day third_day-IsStored

remaining_lem_example :
    (remaining 1000 (busy_queue.queue 0) < 65536)
    × (1000 < 900 → remaining 1000 (busy_queue.queue 0) ≡ 600)
    × (900 ≤ 1000 → 1000 ≤ 900 + 600 → remaining 1000 (busy_queue.queue 0) ≡ 900 + 600 - 1000)
    × (900 + 600 < 1000
        → 1000 + 65536 ≤ 900 + 600 + 4294967296
        → remaining 1000 (busy_queue.queue 0) ≡ 0)
remaining_lem_example =
    remaining_lem 1000 (busy_queue.queue 0) (omega arith) (omega arith) (omega arith)

status_run : server_json_status_main sample ≡ codes "\"sn\":[0,0,0,0,1,0,0,0],\"nstations\":8}"
unfolding server_json_status_main emit_p print_argument print_int ultoa digits bit_test
status_run = refl

server_json_options_main-join_example :
    server_json_options_main false (pos 0) 64 sample
    ≡ join (visible (is_hidden false) (λ oid. option_entry oid (sample.options oid)) 0 num_options)
      ++ emit_p
          (codes ",\"dexp\":$D,\"mexp\":$D,\"hwt\":$D}")
          (int (pos 0) ∷ number max_ext_boards ∷ number 64 ∷ [])
server_json_options_main-join_example = server_json_options_main-join false (pos 0) 64 sample

-- A log of two days, the newest record first.
abbrev two_days : List LogRecord
two_days =
    value_record 1 log_waterlevel 0 80 90000
    ∷ run_record 1 (record { station = 21; program = 1; duration = 60; endtime = 87000 }) 87000
    ∷ value_record 0 log_raindelay 0 600 4000
    ∷ []

is_printed-log_text_example :
    is_printed (some (codes "rs")) (
      log_text
        (run_record 1 (record { station = 21; program = 1; duration = 60; endtime = 87000 }) 87000))
    ≡ false
is_printed-log_text_example =
    is_printed-log_text (some log_rainsense)
      (run_record 1 (record { station = 21; program = 1; duration = 60; endtime = 87000 }) 87000)
      (λ e. cc)

print_days-join_example :
    print_days none two_days 0 2 false ≡ join (map log_text (selected none two_days 0 2))
print_days-join_example = print_days-join none (λ e. cc) two_days 0 2

log_run :
    join (map log_text (selected none two_days 0 2))
    ≡ codes "[0,\"rd\",600,4000]\r\n,[1,21,60,87000]\r\n"
unfolding log_text ultoa digits
log_run = refl

-- "start=0&end=90000&"
abbrev first_days : List ℕ
first_days = codes "start=0&end=90000&"

server_json_log_ends_example :
    let (answer, first, last) = log_range first_days sample in
    ((fuel : ℕ)
      → 366 < fuel
      → server_json_log fuel first_days sample
        ≡ log_answer answer
            (some (print_days (wanted_type first_days) [] first (last + 1 - first) false)))
    ⊎ ((answer ≡ html_ok)
        × (last ≡ 4294967295)
        × ((fuel : ℕ) → server_json_log fuel first_days sample ≡ none))
server_json_log_ends_example = server_json_log_ends first_days sample

-- A last day before 1970, which is accepted.
never_ends :
    (log_range (codes "start=-86400&end=-86400&") sample) ≡ (html_ok, 4294967295, 4294967295)
unfolding log_range find_nonempty find_key_val find_value copy_value atol signed_value digits_value
never_ends = refl
