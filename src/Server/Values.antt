-- ===== src/Server/Values.antt =====
-- The handler of controller values (`/cv`).
use indigo_open_sprinkler_pl.Common.{
  ℕ, zero, suc, ◌+◌, ◌*◌, ◌%◌, not, ◌&&◌, ◌==◌, if◌then◌else◌, List, ◌∷◌, Option, none, some,
}
use indigo_open_sprinkler_pl.Common.Int.{ℤ, pos, negsuc}
use indigo_open_sprinkler_pl.WaterTime.{ulong_mod}
use indigo_open_sprinkler_pl.Http.{find_nonempty}
use indigo_open_sprinkler_pl.Controller.{Controller, update_call, reboot_call, now_tz}
use indigo_open_sprinkler_pl.Controller.OptionIndex.{option_remote_ext_mode}
use indigo_open_sprinkler_pl.Controller.Settings.{
  enable, disable, raindelay_start, raindelay_stop, options_save,
}
use indigo_open_sprinkler_pl.Scheduler.{reset_all_stations}
use indigo_open_sprinkler_pl.Server.{
  Result, html_success, html_data_out_of_bound, key_rsn, key_update, key_rbt, key_en, key_rd,
  key_re, int_of, first_char, is_positive,
}

-- The parts of `/cv`, in order.
unfoldable pub call_system : List ℕ → Controller → Controller
call_system p c =
    let reset : Controller = elim (find_nonempty key_rsn p) [
      | none ↦ c
      | some v ↦ reset_all_stations c
    ] in
    let updated =
      if is_positive (int_of key_update p)
      then record reset { events = update_call ∷ reset.events }
      else reset in
    if is_positive (int_of key_rbt p)
    then record updated { events = reboot_call ∷ updated.events }
    else updated

unfoldable pub change_enabled : ℕ → Controller → Controller
change_enabled en c =
    if (en == 49) && not c.status.enabled
    then enable c
    else if (en == 48) && c.status.enabled
    then disable c
    else c

unfoldable pub change_rain_delay : ℤ → Controller → Option Controller
change_rain_delay (pos zero) c = some (raindelay_stop c)
change_rain_delay (pos (suc n)) c = some (
    raindelay_start (record c {
      nvdata = record (c.nvdata) { rd_stop_time = (now_tz c + suc n * 3600) % ulong_mod };
    }))
change_rain_delay (negsuc n) c = none

unfoldable pub set_remote : ℕ → Controller → Controller
set_remote v c =
    options_save
      (record c { options = λ oid. if oid == option_remote_ext_mode then v else c.options oid })

unfoldable pub change_remote : ℕ → Controller → Controller
change_remote re c =
    if (re == 49) && (c.options option_remote_ext_mode == 0)
    then set_remote 1 c
    else if (re == 48) && not (c.options option_remote_ext_mode == 0)
    then set_remote 0 c
    else c

-- `/cv`
unfoldable pub server_change_values : List ℕ → Controller → Controller × Result
server_change_values p c =
    let switched = change_enabled (first_char key_en p) (call_system p c) in
    let delayed : Option Controller = elim (int_of key_rd p) [
      | none ↦ some switched
      | some rd ↦ change_rain_delay rd switched
    ] in
    elim delayed [
      | none ↦ (switched, html_data_out_of_bound)
      | some d ↦ (change_remote (first_char key_re p) d, html_success)
    ]
