-- ===== src/System/Sensors.antt =====
-- The rain delay and the sensors keep the state safe (firmware/main.cpp).
use indigo_open_sprinkler_pl.Common.{ℕ, ◌+◌, arith, Bool, false, not, ◌%◌, ltb, ◌==◌}
use indigo_open_sprinkler_pl.Common.Int.{pos}
use indigo_open_sprinkler_pl.WaterTime.{ulong_mod}
use indigo_open_sprinkler_pl.Controller.{
  Controller, push_message, write_log, rainsensor, log_rainsense,
}
use indigo_open_sprinkler_pl.Controller.OptionIndex.{option_sensor_type}
use indigo_open_sprinkler_pl.Controller.Settings.{
  raindelay_start, raindelay_stop, rainsensor_status, programswitch_status, sensor_type_rain,
}
use indigo_open_sprinkler_pl.Scheduler.{reset_all_stations_immediate}
use indigo_open_sprinkler_pl.MainLoop.{
  same, load_masters, check_rain_delay, log_rain_delay, check_rain_sensor, check_program_switch,
}
use indigo_open_sprinkler_pl.System.{IsSafe}
use indigo_open_sprinkler_pl.System.Kept.{
  Unchanged, Unchanged-refl, Unchanged-trans, if-Unchanged, Unchanged-IsSafe,
  push_message-Unchanged, write_log-Unchanged,
}
use indigo_open_sprinkler_pl.System.Queueing.{
  if-IsSafe, reset_all_stations_immediate-IsSafe, manual_start_program-IsSafe,
}

pub load_masters-Unchanged : (c : Controller) → Unchanged c (load_masters c)
unfolding load_masters
load_masters-Unchanged c = ground arith

pub check_rain_delay-Unchanged : (t : ℕ) (c : Controller) → Unchanged c (check_rain_delay t c)
unfolding check_rain_delay raindelay_start raindelay_stop
check_rain_delay-Unchanged t c = ground arith

pub log_rain_delay-Unchanged : (t : ℕ) (c : Controller) → Unchanged c (log_rain_delay t c)
unfolding log_rain_delay push_message write_log
log_rain_delay-Unchanged t c = ground arith

rainsensor_status-Unchanged : (pin : ℕ) (c : Controller) → Unchanged c (rainsensor_status pin c)
unfolding rainsensor_status
rainsensor_status-Unchanged pin c = ground arith

timed-Unchanged : (t : ℕ) (c : Controller) → Unchanged c (record c { sensor_lasttime = t })
timed-Unchanged t c = ground arith

marked-Unchanged : (b : Bool) (c : Controller) → Unchanged c (record c { old_rain_sensed = b })
marked-Unchanged b c = ground arith

pub check_rain_sensor-Unchanged :
    (pin t : ℕ) (c : Controller) → Unchanged c (check_rain_sensor pin t c)
unfolding check_rain_sensor
check_rain_sensor-Unchanged pin t c =
    if-Unchanged (not (c.options option_sensor_type == sensor_type_rain)) (Unchanged-refl c) (
      if-Unchanged (same s.old_rain_sensed s.status.rain_sensed) sensed (
        Unchanged-trans
          (if-Unchanged s.status.rain_sensed
            (Unchanged-trans (Unchanged-trans sensed (timed-Unchanged t s))
              (push_message-Unchanged rainsensor 1 (pos 1) _))
            (if-Unchanged (ltb ((s.sensor_lasttime + 10) % ulong_mod) t)
              (Unchanged-trans (Unchanged-trans sensed (write_log-Unchanged log_rainsense t s))
                (push_message-Unchanged rainsensor 1 (pos 0) _))
              sensed))
          (marked-Unchanged s.status.rain_sensed _)))
  where
    s : Controller
    s = rainsensor_status pin c

    sensed : Unchanged c s
    sensed = rainsensor_status-Unchanged pin c

pub programswitch_status-Unchanged :
    (pin t : ℕ) (c : Controller) → Unchanged c (programswitch_status pin t c).0
unfolding programswitch_status
programswitch_status-Unchanged pin t c = ground arith

pub check_program_switch-IsSafe :
    (pin t : ℕ) (c : Controller) → IsSafe c → IsSafe (check_program_switch pin t c)
unfolding check_program_switch
check_program_switch-IsSafe pin t c h =
    if-IsSafe (programswitch_status pin t c).1
      (if-IsSafe (ltb 0 reset.nprograms) (manual_start_program-IsSafe 1 false reset reset-IsSafe)
        reset-IsSafe)
      pressed-IsSafe
  where
    pressed : Controller
    pressed = (programswitch_status pin t c).0

    pressed-IsSafe : IsSafe pressed
    pressed-IsSafe = Unchanged-IsSafe (programswitch_status-Unchanged pin t c) h

    reset : Controller
    reset = reset_all_stations_immediate pressed

    reset-IsSafe : IsSafe reset
    reset-IsSafe = reset_all_stations_immediate-IsSafe pressed pressed-IsSafe
