-- ===== src/Weather.antt =====
-- firmware/weather.cpp: the answer of the weather service, and when main.cpp asks it.
pub mod Laws
mod Tests
use indigo_open_sprinkler_pl.Common.{
  ℕ, zero, suc, ◌+◌, ◌-◌, ◌*◌, ◌/◌, ◌%◌, Bool, true, false, not, ◌&&◌, ◌||◌, ltb, leb, ◌==◌,
  if◌then◌else◌, List, [], ◌∷◌, Option, none, some, update, bit_or, bit_and,
}
use indigo_open_sprinkler_pl.Common.Int.{ℤ, pos, negsuc, pos_part, neg_part}
use indigo_open_sprinkler_pl.WaterTime.{ulong_mod}
use indigo_open_sprinkler_pl.Http.{find_nonempty, atol, text_of}
use indigo_open_sprinkler_pl.Controller.{
  Controller, ConStatus, NvConData, log_waterlevel, write_log, push_message, weather_update, now_tz,
  elapsed,
}
use indigo_open_sprinkler_pl.Controller.OptionIndex.{
  option_water_percentage, option_timezone, option_remote_ext_mode, option_sensor_type,
}
use indigo_open_sprinkler_pl.Controller.Settings.{
  nvdata_save, options_save, raindelay_start, raindelay_stop, sensor_type_flow,
}

-- The rest of the text from the first '&' on.
unfoldable pub from_ampersand : List ℕ → Option (List ℕ)
from_ampersand [] = none
from_ampersand (x ∷ xs) = elim (x == 0) [
  | true ↦ none
  | false ↦ elim (x == 38) [ true ↦ some (x ∷ xs) | false ↦ from_ampersand xs ]
]

-- The value of a name if it is a number from 0 to `max`.
unfoldable pub value_in : List ℕ → ℕ → List ℕ → Option ℕ
value_in key max p = elim (find_nonempty key p) [
  | none ↦ none
  | some text ↦ elim (atol text) [ pos v ↦ if leb v max then some v else none | negsuc n ↦ none ]
]

abbrev pub flag : ℕ → Controller → Controller
flag bit c = record c { weather_update_flag = bit_or c.weather_update_flag bit }

abbrev pub key_sunrise : List ℕ
key_sunrise = 115 ∷ 117 ∷ 110 ∷ 114 ∷ 105 ∷ 115 ∷ 101 ∷ []

abbrev pub key_sunset : List ℕ
key_sunset = 115 ∷ 117 ∷ 110 ∷ 115 ∷ 101 ∷ 116 ∷ []

abbrev pub key_eip : List ℕ
key_eip = 101 ∷ 105 ∷ 112 ∷ []

abbrev pub key_scale : List ℕ
key_scale = 115 ∷ 99 ∷ 97 ∷ 108 ∷ 101 ∷ []

abbrev pub key_tz : List ℕ
key_tz = 116 ∷ 122 ∷ []

abbrev pub key_rd : List ℕ
key_rd = 114 ∷ 100 ∷ []

unfoldable pub take_sunrise : Option ℕ → Controller → Controller
take_sunrise none c = c
take_sunrise (some v) c =
    if v == c.nvdata.sunrise_time
    then c
    else flag 1 (nvdata_save (record c { nvdata = record (c.nvdata) { sunrise_time = v } }))

unfoldable pub take_sunset : Option ℕ → Controller → Controller
take_sunset none c = c
take_sunset (some v) c =
    if v == c.nvdata.sunset_time
    then c
    else flag 2 (nvdata_save (record c { nvdata = record (c.nvdata) { sunset_time = v } }))

-- The address of 32 bits that a number converts to.
abbrev pub to_uint32 : ℤ → ℕ
to_uint32 (pos n) = n % ulong_mod
to_uint32 (negsuc n) = ulong_mod - 1 - n % ulong_mod

unfoldable pub take_external_ip : Option (List ℕ) → Controller → Controller
take_external_ip none c = c
take_external_ip (some text) c =
    let ip = to_uint32 (atol text) in
    if ip == c.nvdata.external_ip
    then c
    else flag 4 (nvdata_save (record c { nvdata = record (c.nvdata) { external_ip = ip } }))

unfoldable pub take_scale : Option ℕ → Controller → Controller
take_scale none c = c
take_scale (some v) c =
    if v == c.options option_water_percentage
    then c
    else flag 8 (options_save (record c { options = update c.options option_water_percentage v }))

unfoldable pub take_timezone : Option ℕ → Controller → Controller
take_timezone none c = c
take_timezone (some v) c =
    if v == c.options option_timezone
    then c
    else flag 16 (options_save (record c { options = update c.options option_timezone v }))

-- A rain delay in hours.
unfoldable pub take_rain_delay : Option (List ℕ) → Controller → Controller
take_rain_delay none c = c
take_rain_delay (some text) c = elim (atol text) [
  | pos zero ↦ raindelay_stop c
  | pos (suc n) ↦ raindelay_start (record c {
    nvdata = record (c.nvdata) { rd_stop_time = (now_tz c + suc n * 3600) % ulong_mod };
  })
  | negsuc n ↦ c
]

unfoldable pub take_settings : List ℕ → Controller → Controller
take_settings p c =
    let sun =
      take_sunset (value_in key_sunset 1440 p) (take_sunrise (value_in key_sunrise 1440 p) c) in
    let scaled =
      take_scale (value_in key_scale 250 p) (take_external_ip (find_nonempty key_eip p) sun) in
    take_rain_delay (find_nonempty key_rd p) (take_timezone (value_in key_tz 108 p) scaled)

unfoldable pub getweather_callback : List ℕ → Controller → Controller
getweather_callback text c = elim (from_ampersand text) [
  | none ↦ c
  | some p ↦
      let taken = take_settings p c in
      let t = now_tz taken in
      write_log log_waterlevel t (record taken { checkwt_success_lasttime = t })
]

-- The text behind the first empty line, for a text with one; `eol` says that the line is empty so
-- far. The buffer's size is not reached.
unfoldable pub body_of : Bool → List ℕ → Option (List ℕ)
body_of eol [] = none
body_of eol (x ∷ xs) = elim (x == 0) [
  | true ↦ none
  | false ↦ elim (x == 10) [
    | true ↦ elim eol [ true ↦ some (text_of xs) | false ↦ body_of true xs ]
    | false ↦ body_of (if x == 13 then eol else false) xs
  ]
]

unfoldable pub peel_http_header : List ℕ → List ℕ
peel_http_header buffer = elim (body_of true buffer) [ none ↦ buffer | some body ↦ body ]

-- Whether the service is asked; `answer` is the text that it sends, if it is reached.
unfoldable pub check_weather : Option (List ℕ) → Controller → Controller
check_weather answer c =
    let ntz = now_tz c in
    let late = ltb ((c.checkwt_success_lasttime + 86433) % ulong_mod) ntz in
    let asked = record c { checkwt_lasttime = ntz } in
    if ltb 0 c.status.network_fails || not (c.options option_remote_ext_mode == 0)
    then c
    else if not (c.checkwt_success_lasttime == 0) && late
    then record c {
      checkwt_success_lasttime = 0;
      status = record (c.status) { safe_reboot = true };
    }
    else if (c.checkwt_lasttime == 0) || ltb ((c.checkwt_lasttime + 3601) % ulong_mod) ntz
    then elim answer [
      | none ↦ asked
      | some buffer ↦ getweather_callback (peel_http_header buffer) asked
    ]
    else c

-- The message about what the weather service has changed.
unfoldable pub notify_weather : Controller → Controller
notify_weather c =
    let wuf = c.weather_update_flag in
    let eip = not (bit_and wuf 4 == 0) in
    let wl = not (bit_and wuf 8 == 0) in
    let told =
      if eip || wl
      then push_message weather_update (if eip then c.nvdata.external_ip else 0)
          (if wl then pos (c.options option_water_percentage) else negsuc 0) c
      else c in
    if wuf == 0 then c else record told { weather_update_flag = 0 }

-- The flow count of the last 30 seconds.
unfoldable pub count_flow : ℕ → Controller → Controller
count_flow curr_time c =
    if c.options option_sensor_type == sensor_type_flow
    then (if curr_time % 30 == 0
        then record c {
          flowcount_rt = elapsed c.flow_count c.flowcount_rt_start;
          flowcount_rt_start = c.flow_count;
        }
        else c)
    else c

-- The end of a second of the main loop.
unfoldable pub periodic : ℕ → Option (List ℕ) → Controller → Controller
periodic curr_time answer c =
    let counted = count_flow curr_time c in
    let due = record counted {
      status = record (counted.status) {
        req_ntpsync = counted.status.req_ntpsync || (curr_time % 86403 == 0);
        req_network =
            counted.status.req_network || (not (curr_time == 0) && (curr_time % 601 == 0));
      };
    } in
    notify_weather (check_weather answer due)
