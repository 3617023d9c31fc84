-- ===== src/Setup.antt =====
-- The start of the controller in the build for Linux: `do_setup` of firmware/main.cpp, and `begin`
-- and `options_setup` with its factory reset of firmware/OpenSprinkler.cpp.
pub mod Kept
pub mod Closed
pub mod Safe
mod Tests
use indigo_open_sprinkler_pl.Common.{
  ℕ, ◌+◌, ◌/◌, ◌%◌, Bool, true, false, not, ◌||◌, leb, ltb, ◌==◌, if◌then◌else◌, List, [], ◌∷◌,
  get_or,
}
use indigo_open_sprinkler_pl.Runtime.{Runtime, max_num_stations, reset_runtime}
use indigo_open_sprinkler_pl.Program.{ProgramStruct, OddEven, unrestricted, weekly}
use indigo_open_sprinkler_pl.Controller.{Controller, NvConData, ConStatus, Attributes, Texts}
use indigo_open_sprinkler_pl.Controller.OptionIndex.{
  option_fw_version, option_hw_version, option_reset,
}
use indigo_open_sprinkler_pl.Controller.Programs.{load_count}
use indigo_open_sprinkler_pl.Controller.Stations.{
  max_ext_boards, clear_all_station_bits, apply_all_station_bits,
}
use indigo_open_sprinkler_pl.Controller.Settings.{
  options_load, options_save, nvdata_load, nvdata_save,
}
use indigo_open_sprinkler_pl.Json.{codes}
use indigo_open_sprinkler_pl.Json.Options.{os_fw_version}

abbrev default_table : List ℕ
default_table =
    217 ∷ 28 ∷ 1 ∷ 1 ∷ 0 ∷ 0 ∷ 0 ∷ 0 ∷ 0 ∷ 0 ∷ 0 ∷ 0 ∷ 144 ∷ 31 ∷ 0 ∷ 0 ∷ 1 ∷ 120 ∷ 0 ∷ 120 ∷ 120
    ∷ 0 ∷ 0 ∷ 100 ∷ 1 ∷ 0 ∷ 0 ∷ 150 ∷ 100 ∷ 50 ∷ 80 ∷ 0 ∷ 50 ∷ 97 ∷ 210 ∷ 169 ∷ 1 ∷ 0 ∷ 120 ∷ 120
    ∷ 0 ∷ 100 ∷ 0 ∷ 0 ∷ 8 ∷ 8 ∷ 8 ∷ 8 ∷ 0 ∷ 0 ∷ 0 ∷ []

-- The values that the options have in the program's data; the version of the hardware depends on the
-- build.
unfoldable pub default_options : ℕ → ℕ → ℕ
default_options hw_version oid =
    if oid == option_hw_version then hw_version else get_or default_table oid 0

abbrev no_data : NvConData
no_data = record { sunrise_time = 0; sunset_time = 0; rd_stop_time = 0; external_ip = 0 }

-- The variables when the process starts: 0, except for the options. The non-volatile memory, the
-- files, the clock and the valves are what they were.
unfoldable pub power_on : ℕ → Controller → Controller
power_on hw_version c = record c {
  options = default_options hw_version;
  nvdata = no_data;
  status = record {
    enabled = false;
    rain_delayed = false;
    rain_sensed = false;
    program_busy = false;
    safe_reboot = false;
    req_ntpsync = false;
    req_network = false;
    network_fails = 0;
    mas = 0;
    mas2 = 0;
  };
  old_rain_delayed = false;
  old_rain_sensed = false;
  nboards = 0;
  nstations = 0;
  station_bits = λ b. 0;
  runtime = record {
    queue = λ i. record { st = 0; dur = 0; sid = 0; pid = 0 };
    nqueue = 0;
    station_qid = λ s. 0;
    last_seq_stop_time = 0;
  };
  lastrun = record { station = 0; program = 0; duration = 0; endtime = 0 };
  nprograms = 0;
  sensor_lasttime = 0;
  raindelay_start_time = 0;
  flow_count = 0;
  flowcount_log_start = 0;
  flowcount_rt = 0;
  flowcount_rt_start = 0;
  checkwt_lasttime = 0;
  checkwt_success_lasttime = 0;
  weather_update_flag = 0;
  keydown_time = 0;
  last_sid = 0;
}

unfoldable pub begin : Controller → Controller
begin c =
    let off = apply_all_station_bits (clear_all_station_bits c) in
    record off {
      status = record (off.status) { enabled = true; safe_reboot = false };
      old_rain_delayed = off.status.rain_delayed;
      old_rain_sensed = off.status.rain_sensed;
      nvdata = record (off.nvdata) { sunrise_time = 360; sunset_time = 1080 };
      nboards = 1;
      nstations = 8;
    }

-- The firmware that wrote the options is another one, or the option that asks for a reset is set.
unfoldable pub needs_reset : Controller → Bool
needs_reset c =
    not (c.nvm_options option_fw_version == os_fw_version) || (c.nvm_options option_reset == 170)

-- All of the non-volatile memory is 0.
unfoldable pub wipe : Controller → Controller
wipe c = record c {
  nvm_options = λ oid. 0;
  nvm_nvdata = no_data;
  attributes = record {
    mas_op = λ b. 0;
    ignrain = λ b. 0;
    mas_op_2 = λ b. 0;
    stndisable = λ b. 0;
    stnseq = λ b. 0;
    stnspe = λ b. 0;
  };
  texts = record (c.texts) {
    password = [];
    location = [];
    javascript_url = [];
    weather_url = [];
    weather_key = [];
    station_names = λ sid. [];
  };
  nvm_nprograms = 0;
  programs = λ pid. record {
    enabled = false;
    use_weather = false;
    oddeven = unrestricted;
    type = weekly;
    starttime_type = false;
    days0 = 0;
    days1 = 0;
    starttimes = λ i. 0;
    durations = λ sid. 0;
    name = [];
  };
}

abbrev pub default_password : List ℕ
default_password = codes "a6d82bced638de3def1e9bbb4983225c"

abbrev default_location : List ℕ
default_location = codes "Boston,MA"

abbrev default_javascript_url : List ℕ
default_javascript_url = codes "https://ui.opensprinkler.com/js"

abbrev default_weather_url : List ℕ
default_weather_url = codes "weather.opensprinkler.com"

abbrev default_weather_key : List ℕ
default_weather_key = codes ""

-- `S` and the two digits of the station's number, which counts from 1.
unfoldable pub station_label : ℕ → List ℕ
station_label sid = 83 ∷ (48 + (sid + 1) / 10) ∷ (48 + (sid + 1) % 10) ∷ []

unfoldable pub default_texts : Texts → Texts
default_texts texts = record texts {
  password = default_password;
  location = default_location;
  javascript_url = default_javascript_url;
  weather_url = default_weather_url;
  weather_key = default_weather_key;
  weather_options = [];
  station_names =
      λ sid. if ltb sid max_num_stations then station_label sid else texts.station_names sid;
  special_data = λ sid. if ltb sid max_num_stations then 0 ∷ 48 ∷ [] else [];
}

abbrev on_all_boards : ℕ → ℕ
on_all_boards bid = if leb bid max_ext_boards then 255 else 0

unfoldable pub factory_reset : Controller → Controller
factory_reset c =
    let saved = nvdata_save (wipe c) in
    options_save (record saved {
      texts = default_texts saved.texts;
      attributes = record (saved.attributes) { mas_op = on_all_boards; stnseq = on_all_boards };
    })

unfoldable pub options_setup : Controller → Controller
options_setup c = nvdata_load (options_load (if needs_reset c then factory_reset c else c))

-- `ProgramData::init`
unfoldable pub init_programs : Controller → Controller
init_programs c = load_count (record c { runtime = reset_runtime c.runtime })

-- `network` says that the network was started.
unfoldable pub do_setup : Bool → Controller → Controller
do_setup network c =
    let ready = init_programs (options_setup (begin c)) in
    record ready {
      status = record (ready.status) {
        network_fails = if network then 0 else 1;
        req_network = false;
      };
    }
