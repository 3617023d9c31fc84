-- ===== src/MainLoop.antt =====
-- The main loop of firmware/main.cpp (`do_loop`), part by part: what it does once a second. `gmtime`
-- is the C library's, `pin` what the sensor's pin reads.
pub mod Rain
pub mod Assign
pub mod Cleanup
pub mod Master
pub mod Keeping
pub mod Starting
mod Minute
mod Tests
unfoldable pub use Minute.{
  program_water_time, program_station, check_program, check_programs, schedule_programs,
}
use indigo_open_sprinkler_pl.Common.{
  ℕ, zero, suc, ◌+◌, ◌-◌, ◌*◌, ◌/◌, ◌%◌, max, Bool, true, false, not, ◌&&◌, ◌||◌, ltb, leb, ◌==◌,
  if◌then◌else◌, List, [], ◌∷◌, bit_test, update, replay, Option, none, some,
}
use indigo_open_sprinkler_pl.Common.Int.{ℤ, pos}
use indigo_open_sprinkler_pl.WaterTime.{
  ulong_mod, ulong_add, water_time_decode_signed, water_time_resolve,
}
use indigo_open_sprinkler_pl.Runtime.{Element, Runtime, reset_runtime, dequeue, unlinked}
use indigo_open_sprinkler_pl.Program.{ProgramStruct, Tm, check_match}
use indigo_open_sprinkler_pl.Controller.{
  Controller, ConStatus, NvConData, log_raindelay, log_rainsense, log_flowsense, write_log,
  push_message, rainsensor, flowsensor, program_sched, stop_time, elapsed,
}
use indigo_open_sprinkler_pl.Controller.OptionIndex.{
  option_master_station, option_master_station_2, option_sensor_type, option_water_percentage,
  option_remote_ext_mode, option_master_on_adj, option_master_off_adj, option_master_on_adj_2,
  option_master_off_adj_2,
}
use indigo_open_sprinkler_pl.Controller.Settings.{
  sensor_type_flow, sensor_type_rain, raindelay_start, raindelay_stop, rainsensor_status,
  programswitch_status,
}
use indigo_open_sprinkler_pl.Controller.Stations.{
  set_station_bit, clear_all_station_bits, apply_all_station_bits, station_on,
}
use indigo_open_sprinkler_pl.Scheduler.{
  sequential, schedule_all_stations, turn_off_station, process_dynamic_events,
  reset_all_stations_immediate, manual_start_program, add_element, is_master, disabled,
}

-- The master stations are read from the options at the start of each round.
unfoldable pub load_masters : Controller → Controller
load_masters c = record c {
  status = record (c.status) {
    mas = c.options option_master_station;
    mas2 = c.options option_master_station_2;
  };
}

-- Rain delay: its end, or its start.
unfoldable pub check_rain_delay : ℕ → Controller → Controller
check_rain_delay curr_time c =
    if c.status.rain_delayed
    then (if leb c.nvdata.rd_stop_time curr_time then raindelay_stop c else c)
    else if ltb curr_time c.nvdata.rd_stop_time
    then raindelay_start c
    else c

abbrev pub same : Bool → Bool → Bool
same true b = b
same false b = not b

-- The log record and the messages of a rain delay that has started or stopped.
unfoldable pub log_rain_delay : ℕ → Controller → Controller
log_rain_delay curr_time c =
    let started =
      push_message rainsensor 2 (pos 1) (record c { raindelay_start_time = curr_time }) in
    let stopped = push_message rainsensor 2 (pos 0) (write_log log_raindelay curr_time c) in
    let changed = if c.status.rain_delayed then started else stopped in
    if same c.old_rain_delayed c.status.rain_delayed
    then c
    else record changed { old_rain_delayed = c.status.rain_delayed }

-- The rain sensor; a rain of at most 10 seconds is not logged.
unfoldable pub check_rain_sensor : ℕ → ℕ → Controller → Controller
check_rain_sensor pin curr_time c =
    let s = rainsensor_status pin c in
    let started = push_message rainsensor 1 (pos 1) (record s { sensor_lasttime = curr_time }) in
    let stopped =
      if ltb ((s.sensor_lasttime + 10) % ulong_mod) curr_time
      then push_message rainsensor 1 (pos 0) (write_log log_rainsense curr_time s)
      else s in
    let changed = if s.status.rain_sensed then started else stopped in
    if not (c.options option_sensor_type == sensor_type_rain)
    then c
    else if same s.old_rain_sensed s.status.rain_sensed
    then s
    else record changed { old_rain_sensed = s.status.rain_sensed }

-- A press of the program switch starts the first program.
unfoldable pub check_program_switch : ℕ → ℕ → Controller → Controller
check_program_switch pin curr_time c =
    let (s, pressed) = programswitch_status pin curr_time c in
    let reset = reset_all_stations_immediate s in
    if pressed
    then (if ltb 0 reset.nprograms then manual_start_program 1 false reset else reset)
    else s

-- Queue element i is assigned to its station, unless that has one that starts earlier.
unfoldable pub assign : ℕ → Runtime → Runtime
assign i r =
    let sid = (r.queue i).sid in
    let sqi = r.station_qid sid in
    if ltb sqi unlinked && ltb (r.queue sqi).st (r.queue i).st
    then r
    else record r { station_qid = update r.station_qid sid i }

unfoldable pub assign_all : Runtime → Runtime
assign_all r = replay r.nqueue assign r

-- The second half of a station's time keeping: slot `qid` is looked at again, also after
-- `turn_off_station` has taken the element out of it.
unfoldable pub turn_on : ℕ → ℕ → Bool → ℕ → Controller → Controller
turn_on curr_time qid was_on sid c =
    let q = c.runtime.queue qid in
    if was_on
    then c
    else if leb q.st curr_time && ltb curr_time (stop_time q)
    then (set_station_bit sid true c).0
    else c

-- Time keeping of one station; `bitvalue` is its board's byte when the board's turn began.
unfoldable pub keep_time : ℕ → ℕ → ℕ → Controller → Controller
keep_time curr_time bitvalue sid c =
    let qid = c.runtime.station_qid sid in
    let q = c.runtime.queue qid in
    let stopped =
      if ltb 0 q.st && leb (stop_time q) curr_time then turn_off_station sid curr_time c else c in
    if is_master c sid
    then c
    else if qid == unlinked
    then c
    else turn_on curr_time qid (bit_test bitvalue sid) sid stopped

unfoldable pub keep_board : ℕ → ℕ → Controller → Controller
keep_board curr_time bid c =
    replay 8 (λ s. keep_time curr_time (c.station_bits bid) (bid * 8 + s)) c

unfoldable pub keep_all : ℕ → Controller → Controller
keep_all curr_time c = replay c.nboards (keep_board curr_time) c

-- An element that is marked for removal or has run out.
abbrev pub is_over : ℕ → Element → Bool
is_over curr_time q = (q.dur == 0) || leb (stop_time q) curr_time

-- From index n - 1 down to 0.
unfoldable pub clean_up : ℕ → ℕ → Runtime → Runtime
clean_up curr_time zero r = r
clean_up curr_time (suc n) r =
    clean_up curr_time n (if is_over curr_time (r.queue n) then dequeue n r else r)

-- The last stop time among the first n elements of sequential stations.
unfoldable pub last_stop : ℕ → Controller → ℕ → ℕ
last_stop curr_time c zero = 0
last_stop curr_time c (suc n) =
    let q = c.runtime.queue n in
    let before = last_stop curr_time c n in
    if ltb curr_time (stop_time q) && sequential c q.sid
    then (if ltb before (stop_time q) then stop_time q else before)
    else before

-- What happens when the queue has become empty.
unfoldable pub go_idle : ℕ → Controller → Controller
go_idle curr_time c =
    let off = apply_all_station_bits (clear_all_station_bits c) in
    let idle = record off {
      runtime = reset_runtime off.runtime;
      status = record (off.status) { program_busy = false };
    } in
    let logged =
      if idle.options option_sensor_type == sensor_type_flow
      then push_message flowsensor (elapsed idle.flow_count idle.flowcount_log_start) (pos 0)
          (write_log log_flowsense curr_time idle)
      else idle in
    load_masters logged

-- The part that runs while a program is busy.
unfoldable pub run_programs : ℕ → Controller → Controller
run_programs curr_time c =
    let assigned = record c { runtime = assign_all c.runtime } in
    let kept = keep_all curr_time assigned in
    let cleaned = record kept { runtime = clean_up curr_time kept.runtime.nqueue kept.runtime } in
    let stopped = apply_all_station_bits (process_dynamic_events curr_time cleaned) in
    let timed = record stopped {
      runtime = record (stopped.runtime) {
        last_seq_stop_time = last_stop curr_time stopped stopped.runtime.nqueue;
      };
    } in
    if not c.status.program_busy
    then c
    else if timed.runtime.nqueue == 0
    then go_idle curr_time timed
    else timed

-- The running station `sid` asks for a master that is given by its number, its operation bits and
-- the two adjustments. The source does not ask whether the station is linked: the link 255 leads
-- behind the array, to `queue 255`.
unfoldable pub asks_master : ℕ → ℕ → (ℕ → ℕ) → ℤ → ℤ → Controller → ℕ → Bool
asks_master curr_time mas mas_op on_adj off_adj c sid =
    let q = c.runtime.queue (c.runtime.station_qid sid) in
    if mas == sid + 1
    then false
    else (station_on c sid && bit_test (mas_op (sid / 8)) sid)
      && (leb (ulong_add q.st on_adj) curr_time && leb curr_time (ulong_add (stop_time q) off_adj))

-- The loop with its `break`.
unfoldable pub any_asks : (ℕ → Bool) → ℕ → Bool
any_asks asks zero = false
any_asks asks (suc n) = any_asks asks n || asks n

unfoldable pub handle_master : ℕ → ℕ → (ℕ → ℕ) → ℕ → ℕ → Controller → Controller
handle_master curr_time mas mas_op on_adj off_adj c =
    let asks =
      asks_master curr_time mas mas_op (water_time_decode_signed on_adj)
        (water_time_decode_signed off_adj) c in
    if mas == 0 then c else (set_station_bit (mas - 1) (any_asks asks c.nstations) c).0

unfoldable pub handle_masters : ℕ → Controller → Controller
handle_masters curr_time c =
    let first =
      handle_master curr_time c.status.mas c.attributes.mas_op (c.options option_master_on_adj)
        (c.options option_master_off_adj) c in
    handle_master curr_time first.status.mas2 first.attributes.mas_op_2
      (first.options option_master_on_adj_2) (first.options option_master_off_adj_2) first

-- One second of the loop, from the rain delay to the valves; `minute` says whether a minute begins.
unfoldable pub do_second : (ℕ → Tm) → ℕ → Bool → ℕ → Controller → Option Controller
do_second gmtime pin minute curr_time c =
    let rain = log_rain_delay curr_time (check_rain_delay curr_time (load_masters c)) in
    let switched = check_program_switch pin curr_time (check_rain_sensor pin curr_time rain) in
    elim (if minute then schedule_programs gmtime curr_time switched else some switched) [
      | none ↦ none
      | some scheduled ↦
          let run = handle_masters curr_time (run_programs curr_time scheduled) in
          some (apply_all_station_bits (process_dynamic_events curr_time run))
    ]
