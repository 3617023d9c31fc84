-- ===== src/Controller/Sample.antt =====
-- Controllers for the runs and instances of the other modules.
use indigo_open_sprinkler_pl.Common.{arith, true, false, [], ◌∷◌, if◌then◌else◌, ◌==◌}
use indigo_open_sprinkler_pl.Runtime.{Runtime}
use indigo_open_sprinkler_pl.Runtime.Links.{IsConsistent}
use indigo_open_sprinkler_pl.Program.{ProgramStruct, weekly, unrestricted}
use indigo_open_sprinkler_pl.Controller.{Controller}
use indigo_open_sprinkler_pl.Controller.Stations.Bits.{AreBytes}

-- Every day at 22:00, a minute for each station.
abbrev pub evening : ProgramStruct
evening = record {
  enabled = true;
  use_weather = false;
  oddeven = unrestricted;
  type = weekly;
  starttime_type = false;
  days0 = 127;
  days1 = 0;
  starttimes = λ i. if i == 0 then 1320 else 0;
  durations = λ sid. 60;
  name = [];
}

-- Stations 2 and 5 wait for a start time, station 4 runs.
abbrev pub busy_queue : Runtime
busy_queue = record {
  queue = λ i.
      if i == 0
      then record { st = 900; dur = 600; sid = 4; pid = 1 }
      else if i == 1
      then record { st = 0; dur = 60; sid = 2; pid = 1 }
      else record { st = 0; dur = 90; sid = 5; pid = 1 };
  nqueue = 3;
  station_qid = λ s. if s == 4 then 0 else if s == 2 then 1 else 255;
  last_seq_stop_time = 1500;
}

pub busy_queue-IsConsistent : IsConsistent busy_queue
busy_queue-IsConsistent = record { bounded = omega arith; links = λ s lt. ground arith }

-- One board, station 4 on, stations 0 to 3 in the sequential group; logging is on.
abbrev pub sample : Controller
sample = record {
  options = λ o. if o == 36 then 1 else if o == 1 then 48 else if o == 17 then 120 else 0;
  nvm_options = λ o. 0;
  nvdata = record { sunrise_time = 400; sunset_time = 1100; rd_stop_time = 0; external_ip = 0 };
  nvm_nvdata = record { sunrise_time = 400; sunset_time = 1100; rd_stop_time = 0; external_ip = 0 };
  status = record {
    enabled = true;
    rain_delayed = true;
    rain_sensed = false;
    program_busy = true;
    safe_reboot = false;
    req_ntpsync = false;
    req_network = false;
    network_fails = 0;
    mas = 1;
    mas2 = 0;
  };
  old_rain_delayed = false;
  old_rain_sensed = false;
  nboards = 1;
  nstations = 8;
  station_bits = λ b. if b == 0 then 16 else 0;
  attributes = record {
    mas_op = λ b. 255;
    ignrain = λ b. 0;
    mas_op_2 = λ b. 0;
    stndisable = λ b. 0;
    stnseq = λ b. 255;
    stnspe = λ b. 16;
  };
  texts = record {
    password = 111 ∷ 115 ∷ [];
    location = [];
    javascript_url = [];
    weather_url = [];
    weather_key = [];
    weather_options = [];
    station_names = λ i. [];
    special_data = λ i. [];
  };
  runtime = busy_queue;
  lastrun = record { station = 0; program = 0; duration = 0; endtime = 0 };
  nprograms = 1;
  nvm_nprograms = 1;
  programs = λ i. evening;
  sensor_lasttime = 0;
  raindelay_start_time = 0;
  flow_count = 0;
  flowcount_log_start = 0;
  flowcount_rt = 0;
  flowcount_rt_start = 0;
  checkwt_lasttime = 0;
  checkwt_success_lasttime = 0;
  weather_update_flag = 0;
  keydown_time = 0;
  last_sid = 0;
  has_ifttt_key = false;
  buffer_rest = λ name. [];
  clock = 1000;
  valves = [];
  log = [];
  events = [];
}

pub sample-AreBytes : AreBytes sample
sample-AreBytes b = ground arith
