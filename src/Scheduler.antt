-- ===== src/Scheduler.antt =====
-- The scheduler of firmware/main.cpp: start times for new queue elements, the end of a station's
-- run, rain and disabling, and manually started programs.
pub mod Placement
pub mod Rounds
pub mod Starts
pub mod Stopping
pub mod Events
pub mod Manual
mod Tests
use indigo_open_sprinkler_pl.Common.{
  ℕ, zero, suc, ◌+◌, ◌-◌, ◌*◌, ◌/◌, ◌%◌, Bool, true, false, not, ◌&&◌, ◌||◌, ltb, leb, ◌==◌,
  if◌then◌else◌, List, [], ◌∷◌, bit_test, update, replay, Option, none, some,
}
use indigo_open_sprinkler_pl.Common.Int.{ℤ, pos}
use indigo_open_sprinkler_pl.WaterTime.{
  ulong_mod, ulong_add, water_time_decode_signed, water_time_resolve,
}
use indigo_open_sprinkler_pl.Runtime.{
  Element, Runtime, reset_runtime, enqueue, fill, release, unlinked,
}
use indigo_open_sprinkler_pl.Program.{ProgramStruct}
use indigo_open_sprinkler_pl.Controller.{
  Controller, ConStatus, LogStruct, log_station, write_log, push_message, station_run,
  program_sched, now_tz,
}
use indigo_open_sprinkler_pl.Controller.OptionIndex.{
  option_station_delay_time, option_remote_ext_mode, option_sensor_type, option_water_percentage,
}
use indigo_open_sprinkler_pl.Controller.Settings.{sensor_type_flow, sensor_type_rain}
use indigo_open_sprinkler_pl.Controller.Stations.{
  set_station_bit, clear_all_station_bits, apply_all_station_bits,
}

-- The station runs one after the other with the sequential ones: its bit in `ADDR_NVM_STNSEQ` is set
-- and the controller is not in remote extension mode.
abbrev pub sequential : Controller → ℕ → Bool
sequential c sid =
    bit_test (c.attributes.stnseq (sid / 8)) sid && (c.options option_remote_ext_mode == 0)

-- The variables of the loop of `schedule_all_stations`.
pub record Cursor : Type 0 where
  pub con_start_time : ℕ
  pub seq_start_time : ℕ
  pub queue : ℕ → Element
  pub placed : Bool

-- One round of the loop, at queue index i.
unfoldable pub place : (ℕ → Bool) → ℤ → ℕ → Cursor → Cursor
place is_seq station_delay i k =
    let q = k.queue i in
    if not (q.st == 0)
    then k
    else if q.dur == 0
    then k
    else if is_seq q.sid
    then record k {
      queue = update k.queue i (record q { st = k.seq_start_time });
      seq_start_time = ulong_add ((k.seq_start_time + q.dur) % ulong_mod) station_delay;
      placed = true;
    }
    else record k {
      queue = update k.queue i (record q { st = k.con_start_time });
      con_start_time = (k.con_start_time + 1) % ulong_mod;
      placed = true;
    }

-- Where the loop starts.
unfoldable pub start_cursor : ℕ → Controller → Cursor
start_cursor curr_time c =
    let con = (curr_time + 1) % ulong_mod in
    let station_delay = water_time_decode_signed (c.options option_station_delay_time) in
    record {
      con_start_time = con;
      seq_start_time =
          if ltb curr_time c.runtime.last_seq_stop_time
          then ulong_add c.runtime.last_seq_stop_time station_delay
          else con;
      queue = c.runtime.queue;
      placed = false;
    }

-- The busy bit and the flow count, set when the first element is placed.
unfoldable pub mark_busy : ℕ → Controller → Controller
mark_busy curr_time c =
    let busy = record c { status = record (c.status) { program_busy = true } } in
    if c.status.program_busy
    then c
    else if c.options option_sensor_type == sensor_type_flow
    then record busy { flowcount_log_start = c.flow_count; sensor_lasttime = curr_time }
    else busy

unfoldable pub schedule_all_stations : ℕ → Controller → Controller
schedule_all_stations curr_time c =
    let station_delay = water_time_decode_signed (c.options option_station_delay_time) in
    let k =
      replay c.runtime.nqueue (place (sequential c) station_delay) (start_cursor curr_time c) in
    let timed = record c { runtime = record (c.runtime) { queue = k.queue } } in
    if k.placed then mark_busy curr_time timed else timed

-- A station is the first or second master; `sid` counts from 0, the options from 1.
abbrev pub is_master : Controller → ℕ → Bool
is_master c sid = (c.status.mas == sid + 1) || (c.status.mas2 == sid + 1)

-- `lastrun`, the log record and the message of a run that has begun; the duration has 16 bits.
unfoldable pub record_run : ℕ → ℕ → Element → Controller → Controller
record_run sid curr_time q c =
    let run : LogStruct = record {
      station = sid;
      program = q.pid;
      duration = ((curr_time + ulong_mod - q.st) % ulong_mod) % 65536;
      endtime = curr_time;
    } in
    if ltb q.st curr_time
    then (if is_master c sid
        then c
        else push_message station_run sid (pos run.duration)
            (write_log log_station curr_time (record c { lastrun = run })))
    else c

unfoldable pub turn_off_station : ℕ → ℕ → Controller → Controller
turn_off_station sid curr_time c =
    let off = (set_station_bit sid false c).0 in
    let qid = off.runtime.station_qid sid in
    let logged = record_run sid curr_time (off.runtime.queue qid) off in
    if leb off.runtime.nqueue qid
    then off
    else record logged { runtime = release sid logged.runtime }

-- Rain counts, by the delay or by a rain sensor.
unfoldable pub is_raining : Controller → Bool
is_raining c =
    c.status.rain_delayed
    || (c.status.rain_sensed && (c.options option_sensor_type == sensor_type_rain))

-- The test of `process_dynamic_events` on one station: it is linked to an element of a normal
-- program, and the controller is off, or it rains and the station does not ignore rain.
unfoldable pub must_stop : Bool → Bool → ℕ → Controller → Bool
must_stop enabled rain sid c =
    let qid = c.runtime.station_qid sid in
    if is_master c sid
    then false
    else if qid == unlinked
    then false
    else ltb (c.runtime.queue qid).pid 99
      && (not enabled || (rain && not (bit_test (c.attributes.ignrain (sid / 8)) sid)))

unfoldable pub process_dynamic_events : ℕ → Controller → Controller
process_dynamic_events curr_time c =
    replay (c.nboards * 8)
      (λ sid s.
        if must_stop c.status.enabled (is_raining c) sid s
        then turn_off_station sid curr_time s
        else s)
      c

unfoldable pub reset_all_stations_immediate : Controller → Controller
reset_all_stations_immediate c =
    let off = apply_all_station_bits (clear_all_station_bits c) in
    record off { runtime = reset_runtime off.runtime }

unfoldable pub reset_all_stations : Controller → Controller
reset_all_stations c = record c {
  runtime = record (c.runtime) {
    queue = λ i.
        if ltb i c.runtime.nqueue
        then record (c.runtime.queue i) { dur = 0 }
        else c.runtime.queue i;
  };
}

abbrev pub disabled : Controller → ℕ → Bool
disabled c sid = bit_test (c.attributes.stndisable (sid / 8)) sid

-- `q = pd.enqueue(); if (q) { q->st = 0; … }`: the state, and whether there was room. The duration
-- is stored in a `uint16_t`.
unfoldable pub add_element : ℕ → ℕ → ℕ → Controller → Controller × Bool
add_element sid pid dur c = elim (enqueue c.runtime) [
  | none ↦ (c, false)
  | some (i, r) ↦ (
    record c { runtime = fill i (record { st = 0; dur = dur % 65536; sid = sid; pid = pid }) r },
    true,
  )
]

-- The program's water time of a station; `pid` is 0 for a test program, 255 for a short one, and
-- else the program's index plus 1.
unfoldable pub manual_water_time : ℕ → Bool → ℕ → Controller → ℕ
manual_water_time pid uwt sid c =
    let own = (c.programs (pid - 1)).durations sid in
    let dur =
      if pid == 255
      then 2
      else if ltb 0 pid
      then water_time_resolve c.nvdata.sunrise_time c.nvdata.sunset_time own
      else 60 in
    if uwt then ((dur * c.options option_water_percentage) % ulong_mod) / 100 else dur

-- One round of the loop over the stations, with the state and `match_found`.
unfoldable pub manual_station : ℕ → Bool → ℕ → Controller × Bool → Controller × Bool
manual_station pid uwt sid (c, found) =
    let dur = manual_water_time pid uwt sid c in
    let (c', added) = add_element sid 254 dur c in
    if is_master c sid
    then (c, found)
    else if ltb 0 dur && not (disabled c sid)
    then (c', found || added)
    else (c, found)

unfoldable pub manual_start_program : ℕ → Bool → Controller → Controller
manual_start_program pid uwt c =
    let reset = reset_all_stations_immediate c in
    let level = if uwt then pos (reset.options option_water_percentage) else pos 100 in
    let told =
      if ltb 0 pid && ltb pid 255
      then push_message program_sched (pid - 1) level reset
      else reset in
    let (queued, found) = replay told.nstations (manual_station pid uwt) (told, false) in
    if found then schedule_all_stations (now_tz queued) queued else queued
