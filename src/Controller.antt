-- ===== src/Controller.antt =====
-- The state that the firmware keeps in static members (`OpenSprinkler`, `ProgramData`, main.cpp),
-- and its outputs: log records (`write_log`) and events (push messages and the switching of special
-- stations), the newest first. `clock` is what `time(0)` returns during the step at hand.
pub mod OptionIndex
pub mod Stations
pub mod Settings
pub mod Programs
pub mod Sample
mod Tests
use indigo_open_sprinkler_pl.Common.{
  ℕ, zero, suc, ◌+◌, ◌-◌, ◌*◌, ◌/◌, ◌%◌, Bool, true, false, not, ◌&&◌, ltb, ◌==◌, if◌then◌else◌,
  List, [], ◌∷◌, bit_and, Option, none, some,
}
use indigo_open_sprinkler_pl.Common.Int.{ℤ}
use indigo_open_sprinkler_pl.WaterTime.{ulong_mod}
use indigo_open_sprinkler_pl.Runtime.{Element, Runtime}
use indigo_open_sprinkler_pl.Program.{ProgramStruct, secs_per_day}
use OptionIndex.{
  option_timezone, option_enable_logging, option_ifttt_enable, option_water_percentage,
}

-- `NvConData`
pub record NvConData : Type 0 where
  pub sunrise_time : ℕ
  pub sunset_time : ℕ
  pub rd_stop_time : ℕ
  pub external_ip : ℕ

-- `ConStatus`, without the bits that only the AVR build reads.
pub record ConStatus : Type 0 where
  pub enabled : Bool
  pub rain_delayed : Bool
  pub rain_sensed : Bool
  pub program_busy : Bool
  pub safe_reboot : Bool
  pub req_ntpsync : Bool
  pub req_network : Bool
  pub network_fails : ℕ
  pub mas : ℕ
  pub mas2 : ℕ

-- `LogStruct`
pub record LogStruct : Type 0 where
  pub station : ℕ
  pub program : ℕ
  pub duration : ℕ
  pub endtime : ℕ

-- The station attribute bytes in non-volatile memory, by board.
pub record Attributes : Type 0 where
  pub mas_op : ℕ → ℕ
  pub ignrain : ℕ → ℕ
  pub mas_op_2 : ℕ → ℕ
  pub stndisable : ℕ → ℕ
  pub stnseq : ℕ → ℕ
  pub stnspe : ℕ → ℕ

-- The strings in non-volatile memory and in files, without the terminating NUL.
pub record Texts : Type 0 where
  pub password : List ℕ
  pub location : List ℕ
  pub javascript_url : List ℕ
  pub weather_url : List ℕ
  pub weather_key : List ℕ
  pub weather_options : List ℕ
  pub station_names : ℕ → List ℕ
  pub special_data : ℕ → List ℕ

-- `LOGDATA_…`, as the argument of `write_log`
pub data LogData : Type 0 where
  log_station log_rainsense log_raindelay log_waterlevel log_flowsense : LogData

-- A line of the log file of a day: the run of a station, or two values with the name of the type.
pub data LogRecord : Type 0 where
  run_record : (day : ℕ) → LogStruct → (curr_time : ℕ) → LogRecord
  value_record : (day : ℕ) → LogData → (count value curr_time : ℕ) → LogRecord

-- `IFTTT_…`
pub data MessageType : Type 0 where
  program_sched rainsensor flowsensor weather_update reboot station_run : MessageType

-- What leaves the controller: a push message, a command to a special station, or a call of the
-- update script or of the reboot of the system.
pub data Event : Type 0 where
  message : MessageType → (lval : ℕ) → (fval : ℤ) → Event
  special : (sid : ℕ) → (value : Bool) → Event
  update_call : Event
  reboot_call : Event

pub record Controller : Type 0 where
  pub options : ℕ → ℕ
  pub nvm_options : ℕ → ℕ
  pub nvdata : NvConData
  pub nvm_nvdata : NvConData
  pub status : ConStatus
  pub old_rain_delayed : Bool
  pub old_rain_sensed : Bool
  pub nboards : ℕ
  pub nstations : ℕ
  pub station_bits : ℕ → ℕ
  pub attributes : Attributes
  pub texts : Texts
  pub runtime : Runtime
  pub lastrun : LogStruct
  pub nprograms : ℕ
  pub nvm_nprograms : ℕ
  pub programs : ℕ → ProgramStruct
  pub sensor_lasttime : ℕ
  pub raindelay_start_time : ℕ
  pub flow_count : ℕ
  pub flowcount_log_start : ℕ
  pub flowcount_rt : ℕ
  pub flowcount_rt_start : ℕ
  pub checkwt_lasttime : ℕ
  pub checkwt_success_lasttime : ℕ
  pub weather_update_flag : ℕ
  pub keydown_time : ℕ
  pub last_sid : ℕ
  pub has_ifttt_key : Bool
  pub buffer_rest : List ℕ → List ℕ
  pub clock : ℕ
  pub valves : List Bool
  pub log : List LogRecord
  pub events : List Event

-- `now() + 3600 / 4 * (options[OPTION_TIMEZONE] - 48)`
unfoldable pub now_tz : Controller → ℕ
now_tz c = (c.clock + 900 * c.options option_timezone + ulong_mod - 43200) % ulong_mod

-- `q->st + q->dur`
unfoldable pub stop_time : Element → ℕ
stop_time q = (q.st + q.dur) % ulong_mod

abbrev pub message_bit : MessageType → ℕ
message_bit program_sched = 1
message_bit rainsensor = 2
message_bit flowsensor = 4
message_bit weather_update = 8
message_bit reboot = 16
message_bit station_run = 32

-- Whether a message goes out; its text and its way to the server are not modelled.
unfoldable pub push_message : MessageType → ℕ → ℤ → Controller → Controller
push_message type lval fval c =
    if bit_and (c.options option_ifttt_enable) (message_bit type) == 0
    then c
    else if not c.has_ifttt_key
    then c
    else record c { events = message type lval fval ∷ c.events }

-- `a - b` for `a > b`, and 0 otherwise
abbrev pub elapsed : ℕ → ℕ → ℕ
elapsed a b = if ltb b a then a - b else 0

-- The two values of a record that is not a station's run.
unfoldable pub log_values : LogData → ℕ → Controller → ℕ × ℕ
log_values log_station curr_time c = (0, 0)
log_values log_rainsense curr_time c = (0, elapsed curr_time c.sensor_lasttime)
log_values log_raindelay curr_time c = (0, elapsed curr_time c.raindelay_start_time)
log_values log_waterlevel curr_time c = (0, c.options option_water_percentage)
log_values log_flowsense curr_time c =
    (elapsed c.flow_count c.flowcount_log_start, elapsed curr_time c.sensor_lasttime)

unfoldable pub log_line : LogData → ℕ → Controller → LogRecord
unfolding log_values
log_line log_station curr_time c = run_record (curr_time / secs_per_day) c.lastrun curr_time
log_line type curr_time c =
    let v = log_values type curr_time c in
    value_record (curr_time / secs_per_day) type v.0 v.1 curr_time

-- The log's folder and file can be opened; the flow rate, a float that is added to the record of a
-- station's run if a flow sensor is connected, is left out.
unfoldable pub write_log : LogData → ℕ → Controller → Controller
write_log type curr_time c =
    if c.options option_enable_logging == 0
    then c
    else record c { log = log_line type curr_time c ∷ c.log }
