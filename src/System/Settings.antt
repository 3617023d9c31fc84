-- ===== src/System/Settings.antt =====
-- Options, the rain delay and the answers of the weather service keep the state safe
-- (firmware/OpenSprinkler.cpp, firmware/weather.cpp).
use indigo_open_sprinkler_pl.Common.{
  ℕ, ◌≤◌, ◌≡◌, refl, arith, Bool, true, false, ◌==◌, Option, none, some, List, update, bit_or,
  ℕ_discrete, ==_refl, ==_ne,
}
use indigo_open_sprinkler_pl.Http.{find_nonempty}
use indigo_open_sprinkler_pl.Controller.{
  Controller, push_message, write_log, log_waterlevel, now_tz,
}
use indigo_open_sprinkler_pl.Controller.OptionIndex.{
  op_max, option_ext_boards, option_device_enable, option_water_percentage, option_timezone,
}
use indigo_open_sprinkler_pl.Controller.Settings.{
  apply_options, options_save, enable, disable, raindelay_start, raindelay_stop, nvdata_save,
}
use indigo_open_sprinkler_pl.Server.Bounds.{AreInRange}
use indigo_open_sprinkler_pl.Weather.{
  value_in, take_sunrise, take_sunset, take_external_ip, take_scale, take_timezone, take_rain_delay,
  take_settings, getweather_callback, from_ampersand, peel_http_header, check_weather,
  notify_weather, count_flow, periodic, key_rd, key_sunrise, key_sunset, key_eip, key_scale, key_tz,
}
use indigo_open_sprinkler_pl.Weather.Laws.{value_in-bound}
use indigo_open_sprinkler_pl.System.{IsSafe}
use indigo_open_sprinkler_pl.System.Kept.{Unchanged, Unchanged-IsSafe, write_log-Unchanged}
use indigo_open_sprinkler_pl.System.Queueing.{if-IsSafe}

pub options-IsSafe :
    (c : Controller) (o : ℕ → ℕ) → AreInRange o → IsSafe c → IsSafe (record c { options = o })
options-IsSafe c o k h = record {
  runtime_bounded = h.runtime_bounded;
  bytes = h.bytes;
  options_in_range = k;
  boards = h.boards;
  stations = h.stations;
  programs_bounded = h.programs_bounded;
}

ext_boards-le : (c : Controller) → AreInRange c.options → c.options option_ext_boards ≤ 6
unfolding op_max
ext_boards-le c h = h option_ext_boards (omega arith) (omega arith)

pub options_save-IsSafe : (c : Controller) → IsSafe c → IsSafe (options_save c)
unfolding options_save apply_options
options_save-IsSafe c h =
    let e = ext_boards-le c h.options_in_range in
    record {
      runtime_bounded = h.runtime_bounded;
      bytes = h.bytes;
      options_in_range = h.options_in_range;
      boards = omega (arith, e);
      stations = omega (arith, e);
      programs_bounded = h.programs_bounded;
    }

-- An option gets a value in its range.
pub update-AreInRange :
    (o : ℕ → ℕ) (oid v : ℕ) → v ≤ op_max oid → AreInRange o → AreInRange (update o oid v)
unfolding update
update-AreInRange o oid v le h j lt ranged = elim (ℕ_discrete j oid) [
  | yes e ↦ rw (e, ==_refl oid) le
  | no ne ↦ rw (==_ne j oid ne) (h j lt ranged)
]

pub set_option-IsSafe :
    (oid v : ℕ) (c : Controller)
    → v ≤ op_max oid
    → IsSafe c
    → IsSafe (options_save (record c { options = update c.options oid v }))
set_option-IsSafe oid v c le h =
    options_save-IsSafe _
      (options-IsSafe c _ (update-AreInRange c.options oid v le h.options_in_range) h)

status-Unchanged :
    (b : Bool) (c : Controller)
    → Unchanged c (record c { status = record (c.status) { enabled = b } })
status-Unchanged b c = ground arith

pub enable-IsSafe : (c : Controller) → IsSafe c → IsSafe (enable c)
unfolding enable op_max
enable-IsSafe c h =
    set_option-IsSafe option_device_enable 1 _ (omega arith)
      (Unchanged-IsSafe (status-Unchanged true c) h)

pub disable-IsSafe : (c : Controller) → IsSafe c → IsSafe (disable c)
unfolding disable op_max
disable-IsSafe c h =
    set_option-IsSafe option_device_enable 0 _ (omega arith)
      (Unchanged-IsSafe (status-Unchanged false c) h)

flag-IsSafe :
    (bit : ℕ) {c : Controller}
    → IsSafe c
    → IsSafe (record c { weather_update_flag = bit_or c.weather_update_flag bit })
flag-IsSafe bit h = record {
  runtime_bounded = h.runtime_bounded;
  bytes = h.bytes;
  options_in_range = h.options_in_range;
  boards = h.boards;
  stations = h.stations;
  programs_bounded = h.programs_bounded;
}

expired-Unchanged :
    (c : Controller)
    → Unchanged c (record c {
      checkwt_success_lasttime = 0;
      status = record (c.status) { safe_reboot = true };
    })
expired-Unchanged c = ground arith

due-Unchanged :
    (a b : Bool) (c : Controller)
    → Unchanged c (record c { status = record (c.status) { req_ntpsync = a; req_network = b } })
due-Unchanged a b c = ground arith

pub raindelay_stop-Unchanged : (c : Controller) → Unchanged c (raindelay_stop c)
unfolding raindelay_stop
raindelay_stop-Unchanged c = ground arith

pub raindelay_start-Unchanged :
    (t : ℕ) (c : Controller)
    → Unchanged c (raindelay_start (record c { nvdata = record (c.nvdata) { rd_stop_time = t } }))
unfolding raindelay_start
raindelay_start-Unchanged t c = ground arith

take_sunrise-Unchanged : (v : Option ℕ) (c : Controller) → Unchanged c (take_sunrise v c)
unfolding take_sunrise nvdata_save
take_sunrise-Unchanged none c = ground arith
take_sunrise-Unchanged (some v) c = ground arith

take_sunset-Unchanged : (v : Option ℕ) (c : Controller) → Unchanged c (take_sunset v c)
unfolding take_sunset nvdata_save
take_sunset-Unchanged none c = ground arith
take_sunset-Unchanged (some v) c = ground arith

take_external_ip-Unchanged :
    (v : Option (List ℕ)) (c : Controller) → Unchanged c (take_external_ip v c)
unfolding take_external_ip nvdata_save
take_external_ip-Unchanged none c = ground arith
take_external_ip-Unchanged (some v) c = ground arith

take_rain_delay-Unchanged :
    (v : Option (List ℕ)) (c : Controller) → Unchanged c (take_rain_delay v c)
unfolding take_rain_delay raindelay_start raindelay_stop
take_rain_delay-Unchanged none c = ground arith
take_rain_delay-Unchanged (some v) c = ground arith

take_scale-IsSafe :
    (o : Option ℕ) (c : Controller)
    → ((v : ℕ) → o ≡ some v → v ≤ 250)
    → IsSafe c
    → IsSafe (take_scale o c)
unfolding take_scale op_max
take_scale-IsSafe none c le h = h
take_scale-IsSafe (some v) c le h =
    if-IsSafe (v == c.options option_water_percentage) h
      (flag-IsSafe 8 (set_option-IsSafe option_water_percentage v c (le v refl) h))

take_timezone-IsSafe :
    (o : Option ℕ) (c : Controller)
    → ((v : ℕ) → o ≡ some v → v ≤ 108)
    → IsSafe c
    → IsSafe (take_timezone o c)
unfolding take_timezone op_max
take_timezone-IsSafe none c le h = h
take_timezone-IsSafe (some v) c le h =
    if-IsSafe (v == c.options option_timezone) h
      (flag-IsSafe 16 (set_option-IsSafe option_timezone v c (le v refl) h))

take_settings-IsSafe : (p : List ℕ) (c : Controller) → IsSafe c → IsSafe (take_settings p c)
unfolding take_settings
take_settings-IsSafe p c h =
    Unchanged-IsSafe (take_rain_delay-Unchanged (find_nonempty key_rd p) _) (
      take_timezone-IsSafe (value_in key_tz 108 p) _ (λ v. value_in-bound key_tz 108 v p)
        (take_scale-IsSafe (value_in key_scale 250 p) _ (λ v. value_in-bound key_scale 250 v p)
          (Unchanged-IsSafe (take_external_ip-Unchanged (find_nonempty key_eip p) _) (
            Unchanged-IsSafe (take_sunset-Unchanged (value_in key_sunset 1440 p) _)
              (Unchanged-IsSafe (take_sunrise-Unchanged (value_in key_sunrise 1440 p) c) h)))))

lasttimes-Unchanged :
    (s a : ℕ) (c : Controller)
    → Unchanged c (record c { checkwt_success_lasttime = s; checkwt_lasttime = a })
lasttimes-Unchanged s a c = ground arith

getweather_callback-IsSafe :
    (text : List ℕ) (c : Controller) → IsSafe c → IsSafe (getweather_callback text c)
unfolding getweather_callback
getweather_callback-IsSafe text c h = go (from_ampersand text)
  where
    go :
        (o : Option (List ℕ))
        → let next : Controller = elim o [
          | none ↦ c
          | some p ↦
              let taken = take_settings p c in
              let t = now_tz taken in
              write_log log_waterlevel t (record taken { checkwt_success_lasttime = t })
        ] in
          IsSafe next
    go none = h
    go (some p) = Unchanged-IsSafe (write_log-Unchanged log_waterlevel _ _) (
        Unchanged-IsSafe (lasttimes-Unchanged _ _ (take_settings p c)) (take_settings-IsSafe p c h))

check_weather-IsSafe :
    (answer : Option (List ℕ)) (c : Controller) → IsSafe c → IsSafe (check_weather answer c)
unfolding check_weather
check_weather-IsSafe answer c h = if-IsSafe _ h (if-IsSafe _ expired (if-IsSafe _ (asked answer) h))
  where
    expired : IsSafe (record c {
      checkwt_success_lasttime = 0;
      status = record (c.status) { safe_reboot = true };
    })
    expired = Unchanged-IsSafe (expired-Unchanged c) h

    asked :
        (o : Option (List ℕ))
        → let waiting = record c { checkwt_lasttime = now_tz c } in
          let next : Controller = elim o [
            | none ↦ waiting
            | some buffer ↦ getweather_callback (peel_http_header buffer) waiting
          ] in
          IsSafe next
    asked none = Unchanged-IsSafe (lasttimes-Unchanged _ _ c) h
    asked (some buffer) =
        getweather_callback-IsSafe (peel_http_header buffer) _
          (Unchanged-IsSafe (lasttimes-Unchanged _ _ c) h)

count_flow-Unchanged : (t : ℕ) (c : Controller) → Unchanged c (count_flow t c)
unfolding count_flow
count_flow-Unchanged t c = ground arith

notify_weather-Unchanged : (c : Controller) → Unchanged c (notify_weather c)
unfolding notify_weather push_message
notify_weather-Unchanged c = ground arith

pub periodic-IsSafe :
    (t : ℕ) (answer : Option (List ℕ)) (c : Controller) → IsSafe c → IsSafe (periodic t answer c)
unfolding periodic
periodic-IsSafe t answer c h = Unchanged-IsSafe (notify_weather-Unchanged _) (
    check_weather-IsSafe answer _
      (Unchanged-IsSafe (due-Unchanged _ _ _) (Unchanged-IsSafe (count_flow-Unchanged t c) h)))
