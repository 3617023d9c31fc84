-- ===== src/Controller/Settings/Laws.antt =====
-- Settings across a restart, and the size of the controller (firmware/OpenSprinkler.cpp).
use indigo_open_sprinkler_pl.Common.{
  ℕ, ◌+◌, ◌*◌, ◌≤◌, ◌<◌, ◌≡◌, ◌≢◌, ◌⊎◌, refl, ap, arith, true, false, if◌then◌else◌, ◌==◌, update,
}
use indigo_open_sprinkler_pl.Runtime.{max_num_stations}
use indigo_open_sprinkler_pl.Controller.{Controller}
use indigo_open_sprinkler_pl.Controller.OptionIndex.{
  option_ext_boards, option_device_enable, option_fw_minor, num_options, option_sensor_type,
}
use indigo_open_sprinkler_pl.Controller.Settings.{
  sensor_type_pswitch, apply_options, options_load, options_save, nvdata_load, enable, disable,
  raindelay_start, raindelay_stop, programswitch_status,
}

-- Loading what was saved gives each option back, but for the minor version, which is set anew.
pub options_load-options_save :
    (c r : Controller) (oid : ℕ)
    → oid < num_options
    → r.nvm_options ≡ (options_save c).nvm_options
    → (options_load r).options oid ≡ (if oid == option_fw_minor then 0 else c.options oid)
unfolding options_load options_save apply_options update
options_load-options_save c r oid h e = ground (arith, ap (λ f. f oid) e)

-- Turning the operation on or off holds at once and after a restart, whatever the state in memory
-- is when the options are loaded.
pub enable_persists :
    (c r : Controller)
    → ((enable c).status.enabled ≡ true)
      × ((disable c).status.enabled ≡ false)
      × (r.nvm_options ≡ (enable c).nvm_options → (options_load r).status.enabled ≡ true)
      × (r.nvm_options ≡ (disable c).nvm_options → (options_load r).status.enabled ≡ false)
unfolding enable disable options_load update
enable_persists c r = (
  ground arith,
  ground arith,
  λ e. ground (arith, ap (λ f. f option_device_enable) e),
  λ e. ground (arith, ap (λ f. f option_device_enable) e),
)

-- With at most 6 expansion boards the controller counts a station for each of 8 places on each
-- board, at most 56, after loading and after saving.
pub apply_options-size :
    (c : Controller)
    → c.options option_ext_boards ≤ 6
    → ((options_save c).nstations ≡ 8 * (options_save c).nboards)
      × ((options_save c).nboards ≡ c.options option_ext_boards + 1)
      × ((options_save c).nstations ≤ max_num_stations)
unfolding options_save apply_options
apply_options-size c h = (ground arith, ground arith, ground arith)

-- A restart after the end of a rain delay finds no delay; one during a delay finds its end.
pub raindelay_persists :
    (c r : Controller)
    → ((raindelay_stop c).status.rain_delayed ≡ false)
      × ((raindelay_start c).status.rain_delayed ≡ true)
      × (r.nvm_nvdata ≡ (raindelay_stop c).nvm_nvdata → (nvdata_load r).nvdata.rd_stop_time ≡ 0)
      × (r.nvm_nvdata ≡ (raindelay_start c).nvm_nvdata → (nvdata_load r).nvdata ≡ c.nvdata)
unfolding raindelay_start raindelay_stop nvdata_load
raindelay_persists c r = (refl, refl, λ e. ap (λ d. d.rd_stop_time) e, λ e. e)

-- The program switch answers exactly once for a press: the call that answers forgets the press, and
-- a call that does not answer has seen no press that ended in a later second.
pub programswitch_answer :
    (pin curr_time : ℕ) (c : Controller)
    → c.options option_sensor_type ≡ sensor_type_pswitch
    → ((programswitch_status pin curr_time c).1 ≡ true
        → ((programswitch_status pin curr_time c).0.keydown_time ≡ 0)
          × (c.keydown_time < curr_time)
          × (c.keydown_time ≢ 0)
          × (pin ≢ 0))
      × ((programswitch_status pin curr_time c).1 ≡ false
          → (pin ≡ 0) ⊎ ((c.keydown_time ≡ 0) ⊎ (curr_time ≤ c.keydown_time)))
unfolding programswitch_status
programswitch_answer pin curr_time c h = (λ e. ground arith, λ e. ground arith)
