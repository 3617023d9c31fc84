-- ===== src/MainLoop/Minute.antt =====
-- The start of programs, when a minute begins (`do_loop` of firmware/main.cpp).
use indigo_open_sprinkler_pl.Common.{
  ℕ, zero, suc, ◌+◌, ◌*◌, ◌/◌, ◌%◌, Bool, true, false, ◌&&◌, ◌||◌, ltb, ◌==◌, if◌then◌else◌, replay,
  Option, none, some,
}
use indigo_open_sprinkler_pl.Common.Int.{pos}
use indigo_open_sprinkler_pl.WaterTime.{ulong_mod, water_time_resolve}
use indigo_open_sprinkler_pl.Program.{ProgramStruct, Tm, check_match}
use indigo_open_sprinkler_pl.Controller.{Controller, push_message, program_sched}
use indigo_open_sprinkler_pl.Controller.OptionIndex.{option_water_percentage}
use indigo_open_sprinkler_pl.Scheduler.{schedule_all_stations, add_element, is_master, disabled}

-- The water time of a station in a program that starts, scaled by the watering percentage.
unfoldable pub program_water_time : ProgramStruct → ℕ → Controller → ℕ
program_water_time prog sid c =
    let own = water_time_resolve c.nvdata.sunrise_time c.nvdata.sunset_time (prog.durations sid) in
    let wl = c.options option_water_percentage in
    let scaled = ((own * wl) % ulong_mod) / 100 in
    if prog.use_weather then (if ltb wl 20 && ltb scaled 10 then 0 else scaled) else own

-- One station of a program that starts.
unfoldable pub program_station : ℕ → ProgramStruct → ℕ → Controller × Bool → Controller × Bool
program_station pid prog sid (c, found) =
    let water_time = program_water_time prog sid c in
    let (c', added) = add_element sid (pid + 1) water_time c in
    if is_master c sid
    then (c, found)
    else if (prog.durations sid == 0) || disabled c sid
    then (c, found)
    else if water_time == 0
    then (c, found)
    else (c', found || added)

-- One program; nothing if its day test divides by zero.
unfoldable pub check_program : (ℕ → Tm) → ℕ → ℕ → Controller × Bool → Option (Controller × Bool)
check_program gmtime curr_time pid (c, found) =
    let prog = c.programs pid in
    let (c', found') = replay c.nstations (program_station pid prog) (c, found) in
    let level = if prog.use_weather then pos (c'.options option_water_percentage) else pos 100 in
    elim (check_match gmtime c.nvdata.sunrise_time c.nvdata.sunset_time prog curr_time) [
      | none ↦ none
      | some false ↦ some (c, found)
      | some true ↦ some ((if found' then push_message program_sched pid level c' else c'), found')
    ]

unfoldable pub check_programs : (ℕ → Tm) → ℕ → ℕ → Controller → Option (Controller × Bool)
check_programs gmtime curr_time zero c = some (c, false)
check_programs gmtime curr_time (suc n) c = elim (check_programs gmtime curr_time n c) [
  | none ↦ none
  | some r ↦ check_program gmtime curr_time n r
]

-- What is done when a minute begins.
unfoldable pub schedule_programs : (ℕ → Tm) → ℕ → Controller → Option Controller
schedule_programs gmtime curr_time c = elim (check_programs gmtime curr_time c.nprograms c) [
  | none ↦ none
  | some (c', found) ↦ some (if found then schedule_all_stations curr_time c' else c')
]
