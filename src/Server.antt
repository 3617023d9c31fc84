-- ===== src/Server.antt =====
-- The request handlers of firmware/server.cpp that change state. A handler takes the text of the
-- request; the pages and JSON texts that it prints are not modelled.
pub mod Programs
pub mod Values
pub mod Options
pub mod Stations
pub mod Manual
pub mod Dispatch
pub mod Bounds
pub mod Password
mod Tests
use indigo_open_sprinkler_pl.Common.{
  ℕ, zero, suc, ◌+◌, ◌-◌, ◌*◌, ◌/◌, ◌%◌, Bool, true, false, not, ◌&&◌, ◌||◌, ltb, leb, ◌==◌,
  if◌then◌else◌, List, [], ◌∷◌, Option, none, some, replay,
}
use indigo_open_sprinkler_pl.Common.Int.{ℤ, pos, negsuc}
use indigo_open_sprinkler_pl.WaterTime.{ulong_mod, water_time_resolve}
use indigo_open_sprinkler_pl.Http.{
  find_nonempty, atol, to_uint16, head_or_nul, decoded, find_list, parse_listdata, password_verify,
}
use indigo_open_sprinkler_pl.Runtime.{Element, Runtime, fill, unlinked}
use indigo_open_sprinkler_pl.Controller.{
  Controller, ConStatus, NvConData, update_call, reboot_call, now_tz,
}
use indigo_open_sprinkler_pl.Controller.OptionIndex.{option_remote_ext_mode, option_ignore_password}
use indigo_open_sprinkler_pl.Controller.Settings.{
  enable, disable, raindelay_start, raindelay_stop, options_save,
}
use indigo_open_sprinkler_pl.Scheduler.{
  schedule_all_stations, turn_off_station, reset_all_stations, reset_all_stations_immediate,
  manual_start_program, add_element, disabled, is_master,
}

-- `HTML_…`
pub data Result : Type 0 where
  html_ok html_success html_unauthorized html_mismatch html_data_missing html_data_out_of_bound
        html_not_permitted html_redirect_home :
      Result

-- Names in a request.
abbrev pub key_pid : List ℕ
key_pid = 112 ∷ 105 ∷ 100 ∷ []

abbrev pub key_uwt : List ℕ
key_uwt = 117 ∷ 119 ∷ 116 ∷ []

abbrev pub key_sid : List ℕ
key_sid = 115 ∷ 105 ∷ 100 ∷ []

abbrev pub key_en : List ℕ
key_en = 101 ∷ 110 ∷ []

abbrev pub key_t : List ℕ
key_t = 116 ∷ []

abbrev pub key_pw : List ℕ
key_pw = 112 ∷ 119 ∷ []

abbrev pub key_rsn : List ℕ
key_rsn = 114 ∷ 115 ∷ 110 ∷ []

abbrev pub key_update : List ℕ
key_update = 117 ∷ 112 ∷ 100 ∷ 97 ∷ 116 ∷ 101 ∷ []

abbrev pub key_rbt : List ℕ
key_rbt = 114 ∷ 98 ∷ 116 ∷ []

abbrev pub key_rd : List ℕ
key_rd = 114 ∷ 100 ∷ []

abbrev pub key_re : List ℕ
key_re = 114 ∷ 101 ∷ []

-- The number that a request gives to a name.
abbrev pub int_of : List ℕ → List ℕ → Option ℤ
int_of key p = elim (find_nonempty key p) [ none ↦ none | some v ↦ some (atol v) ]

-- The first character of the value of a name; NUL if there is none.
abbrev pub first_char : List ℕ → List ℕ → ℕ
first_char key p = elim (find_nonempty key p) [ none ↦ 0 | some v ↦ head_or_nul v ]

abbrev pub is_positive : Option ℤ → Bool
is_positive none = false
is_positive (some (pos n)) = ltb 0 n
is_positive (some (negsuc n)) = false

unfoldable pub check_password : List ℕ → Controller → Bool
check_password p c =
    if not (c.options option_ignore_password == 0) then true else elim (find_nonempty key_pw p) [
      | none ↦ false
      | some v ↦ password_verify c.texts.password (decoded v (c.buffer_rest key_pw))
    ]

-- `/mp`
unfoldable pub server_manual_program : List ℕ → Controller → Controller × Result
server_manual_program p c =
    let uwt = first_char key_uwt p == 49 in
    elim (int_of key_pid p) [
      | none ↦ (c, html_data_missing)
      | some (negsuc n) ↦ (c, html_data_out_of_bound)
      | some (pos pid) ↦
          if leb c.nprograms pid
          then (c, html_data_out_of_bound)
          else (manual_start_program (pid + 1) uwt (reset_all_stations_immediate c), html_success)
    ]

-- One station of a run-once program, with the state, the rest of the text and `match_found`.
unfoldable pub runonce_station : ℕ → Controller × List ℕ × Bool → Controller × List ℕ × Bool
runonce_station sid (c, pv, found) =
    let (dur, rest) = parse_listdata pv in
    let (c', added) =
      add_element sid 254 (water_time_resolve c.nvdata.sunrise_time c.nvdata.sunset_time dur) c in
    if ltb 0 dur && not (disabled c sid) then (c', rest, found || added) else (c, rest, found)

-- `/cr`
unfoldable pub server_change_runonce : List ℕ → Controller → Controller × Result
server_change_runonce p c = elim (find_list 100 116 61 (decoded p (c.buffer_rest []))) [
  | none ↦ (c, html_data_missing)
  | some pv ↦
      let reset = reset_all_stations_immediate c in
      let (queued, rest, found) = replay reset.nstations runonce_station (reset, pv, false) in
      if found
      then (schedule_all_stations (now_tz queued) queued, html_success)
      else (queued, html_data_missing)
]

-- The element of `/cm` is written over that of the station, or into a new slot.
unfoldable pub test_station : ℕ → ℕ → Controller → Controller × Result
test_station sid timer c =
    let sqi = c.runtime.station_qid sid in
    let over = record c {
      runtime = fill sqi (record { st = 0; dur = timer; sid = sid; pid = 99 }) c.runtime;
    } in
    let (c', added) = if sqi == unlinked then add_element sid 99 timer c else (over, true) in
    if is_master c sid
    then (c, html_not_permitted)
    else if added
    then (schedule_all_stations (now_tz c) c', html_success)
    else (c, html_not_permitted)

-- `/cm`, behind the checks of `sid`.
unfoldable pub change_station : List ℕ → ℕ → Controller → Controller × Result
change_station p sid c = elim (int_of key_en p) [
  | none ↦ (c, html_data_missing)
  | some en ↦
      if to_uint16 en % 256 == 0
      then (turn_off_station sid (now_tz c) c, html_success)
      else elim (int_of key_t p) [
        | none ↦ (c, html_data_missing)
        | some t ↦
            if (to_uint16 t == 0) || ltb 64800 (to_uint16 t)
            then (c, html_data_out_of_bound)
            else test_station sid (to_uint16 t) c
      ]
]

unfoldable pub server_change_manual : List ℕ → Controller → Controller × Result
server_change_manual p c = elim (int_of key_sid p) [
  | none ↦ (c, html_data_missing)
  | some (negsuc n) ↦ (c, html_data_out_of_bound)
  | some (pos sid) ↦
      if leb c.nstations sid then (c, html_data_out_of_bound) else change_station p sid c
]
