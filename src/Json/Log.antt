-- ===== src/Json/Log.antt =====
-- The lines of the log files (`write_log` of firmware/main.cpp) and the page of log records
-- (`server_json_log` of firmware/server.cpp). A file is the lines of its day; the flow rate at the
-- end of the line of a run, a float that is printed if a flow sensor is connected, is left out.
use indigo_open_sprinkler_pl.Common.{
  ℕ, leb, zero, suc, ◌+◌, ◌-◌, ◌/◌, ◌%◌, Bool, true, false, not, ◌||◌, ltb, ◌==◌, if◌then◌else◌,
  List, [], ◌∷◌, ◌++◌, Option, none, some,
}
use indigo_open_sprinkler_pl.Common.Int.{ℤ, pos, negsuc}
use indigo_open_sprinkler_pl.WaterTime.{ulong_mod}
use indigo_open_sprinkler_pl.Program.{secs_per_day}
use indigo_open_sprinkler_pl.Http.{find_key_val, head_or_nul, skip}
use indigo_open_sprinkler_pl.Controller.{
  Controller, LogData, LogRecord, log_station, log_rainsense, log_raindelay, log_waterlevel,
  log_flowsense, run_record, value_record, now_tz,
}
use indigo_open_sprinkler_pl.Server.{
  Result, html_ok, html_data_missing, html_data_out_of_bound, int_of,
}
use indigo_open_sprinkler_pl.Json.{codes, ultoa}

-- `log_type_names`
abbrev pub log_type_name : LogData → List ℕ
log_type_name log_station = codes "  "
log_type_name log_rainsense = codes "rs"
log_type_name log_raindelay = codes "rd"
log_type_name log_waterlevel = codes "wl"
log_type_name log_flowsense = codes "fl"

-- The line of a record.
unfoldable pub log_text : LogRecord → List ℕ
log_text (run_record day run curr_time) =
    codes "["
    ++ ultoa run.program
    ++ codes ","
    ++ ultoa run.station
    ++ codes ","
    ++ ultoa run.duration
    ++ codes ","
    ++ ultoa curr_time
    ++ codes "]\r\n"
log_text (value_record day type count value curr_time) =
    codes "["
    ++ ultoa count
    ++ codes ",\""
    ++ log_type_name type
    ++ codes "\","
    ++ ultoa value
    ++ codes ","
    ++ ultoa curr_time
    ++ codes "]\r\n"

-- The text behind the first comma, if there is one.
unfoldable pub after_comma : List ℕ → Option (List ℕ)
after_comma [] = none
after_comma (c ∷ cs) = elim (c == 0) [
  | true ↦ none
  | false ↦ elim (c == 44) [ true ↦ some cs | false ↦ after_comma cs ]
]

-- `!strncmp(a, b, n)`
unfoldable pub same_start : ℕ → List ℕ → List ℕ → Bool
same_start zero a b = true
same_start (suc n) a b =
    let rest = same_start n (skip a) (skip b) in
    if head_or_nul a == head_or_nul b then (if head_or_nul a == 0 then true else rest) else false

-- Whether a line is printed; `type` is the type that the request asks for.
unfoldable pub is_printed : Option (List ℕ) → List ℕ → Bool
is_printed type line = elim (after_comma line) [
  | none ↦ false
  | some ptype ↦ elim type [
    | some t ↦ same_start 2 t (skip ptype)
    | none ↦ not (same_start 2 (codes "wl") (skip ptype) || same_start 2 (codes "fl") (skip ptype))
  ]
]

abbrev pub record_day : LogRecord → ℕ
record_day (run_record day run t) = day
record_day (value_record day type count value t) = day

-- The lines of the file of a day, the oldest first, in front of `rest`.
unfoldable pub day_lines : ℕ → List LogRecord → List (List ℕ) → List (List ℕ)
day_lines day [] rest = rest
day_lines day (r ∷ rs) rest =
    let with = day_lines day rs (log_text r ∷ rest) in
    let without = day_lines day rs rest in if record_day r == day then with else without

-- The loop over a file's lines; `comma` says that a line was printed before.
unfoldable pub print_lines : Option (List ℕ) → List (List ℕ) → Bool → List ℕ × Bool
print_lines type [] comma = ([], comma)
print_lines type (line ∷ lines) comma =
    let (printed, after) = print_lines type lines true in
    let (skipped, after') = print_lines type lines comma in
    if is_printed type line
    then ((if comma then codes "," else []) ++ line ++ printed, after)
    else (skipped, after')

-- What n rounds of the loop over the days print, from `day` on.
unfoldable pub print_days : Option (List ℕ) → List LogRecord → ℕ → ℕ → Bool → List ℕ
print_days type log day zero comma = []
print_days type log day (suc n) comma =
    let (printed, after) = print_lines type (day_lines day log []) comma in
    printed ++ print_days type log (suc day) n after

-- `(unsigned int)(atol(text) / 86400L)`
abbrev pub day_number : ℤ → ℕ
day_number (pos n) = (n / secs_per_day) % ulong_mod
day_number (negsuc n) = (ulong_mod - ((n + 1) / secs_per_day) % ulong_mod) % ulong_mod

abbrev pub key_hist : List ℕ
key_hist = codes "hist"

abbrev pub key_start : List ℕ
key_start = codes "start"

abbrev pub key_end : List ℕ
key_end = codes "end"

abbrev pub key_type : List ℕ
key_type = codes "type"

-- The first and the last day that the request asks for, or the error that is answered.
unfoldable pub log_range : List ℕ → Controller → Result × ℕ × ℕ
log_range p c =
    let today = now_tz c / secs_per_day in
    elim (int_of key_hist p) [
      | some (negsuc n) ↦ (html_data_out_of_bound, 0, 0)
      | some (pos hist) ↦
          if ltb 365 hist
          then (html_data_out_of_bound, 0, 0)
          else (html_ok, (today + ulong_mod - hist) % ulong_mod, today)
      | none ↦ elim (int_of key_start p) [
        | none ↦ (html_data_missing, 0, 0)
        | some s ↦ elim (int_of key_end p) [
          | none ↦ (html_data_missing, 0, 0)
          | some e ↦
              if ltb (day_number e) (day_number s) || ltb 365 (day_number e - day_number s)
              then (html_data_out_of_bound, 0, 0)
              else (html_ok, day_number s, day_number e)
        ]
      ]
    ]

-- The type, if one with at most 3 characters is given.
unfoldable pub wanted_type : List ℕ → Option (List ℕ)
wanted_type p = elim (find_key_val 4 key_type p) [
  | none ↦ none
  | some [] ↦ none
  | some (x ∷ xs) ↦ some (x ∷ xs)
]

-- `for (int i = start; i <= end; i++)`, which compares without a sign, and where the number behind
-- 2^32 - 1 is 0, with fuel: nothing if more rounds are needed.
unfoldable pub day_loop : ℕ → Option (List ℕ) → List LogRecord → ℕ → ℕ → Bool → Option (List ℕ)
day_loop zero type log i end comma = none
day_loop (suc fuel) type log i end comma =
    let (printed, after) = print_lines type (day_lines i log []) comma in
    let rest = day_loop fuel type log ((i + 1) % ulong_mod) end after in
    if leb i end then elim rest [ none ↦ none | some more ↦ some (printed ++ more) ] else some []

-- The answer with the text that is printed behind the header, if the loop over the days ends.
unfoldable pub log_answer : Result → Option (List ℕ) → Option (Result × List ℕ)
log_answer html_ok none = none
log_answer html_ok (some days) = some (html_ok, codes "[" ++ days ++ codes "]")
log_answer other days = some (other, [])

-- With fuel for the loop over the days.
unfoldable pub server_json_log : ℕ → List ℕ → Controller → Option (Result × List ℕ)
server_json_log fuel p c =
    let (answer, start, end) = log_range p c in
    log_answer answer (day_loop fuel (wanted_type p) c.log start end false)
