-- ===== src/Controller/Settings.antt =====
-- Options and non-volatile data of firmware/OpenSprinkler.cpp: loading and saving, and the
-- operations on the controller that change them.
pub mod Laws
use indigo_open_sprinkler_pl.Common.{
  ℕ, ◌+◌, ◌-◌, ◌*◌, ◌/◌, ◌%◌, Bool, true, false, not, ◌&&◌, ltb, ◌==◌, if◌then◌else◌, update, List,
  [], ◌∷◌,
}
use indigo_open_sprinkler_pl.Controller.{Controller, ConStatus, NvConData}
use indigo_open_sprinkler_pl.Controller.OptionIndex.{
  option_ext_boards, option_device_enable, option_fw_minor, num_options, option_sensor_type,
  option_rainsensor_type,
}

abbrev pub sensor_type_rain : ℕ
sensor_type_rain = 1

abbrev pub sensor_type_flow : ℕ
sensor_type_flow = 2

abbrev pub sensor_type_pswitch : ℕ
sensor_type_pswitch = 0xF0

-- `status.enabled` has one bit.
abbrev pub one_bit : ℕ → Bool
one_bit v = v % 2 == 1

-- The end of both `options_load` and `options_save`; the counts are bytes.
unfoldable pub apply_options : Controller → Controller
apply_options c =
    let boards = (c.options option_ext_boards + 1) % 256 in
    record c {
      nboards = boards;
      nstations = (boards * 8) % 256;
      status = record (c.status) { enabled = one_bit (c.options option_device_enable) };
    }

unfoldable pub options_load : Controller → Controller
options_load c =
    let loaded = record c {
      options = λ oid. if ltb oid num_options then c.nvm_options oid else c.options oid;
    } in
    let applied = apply_options loaded in
    record applied { options = update applied.options option_fw_minor 0 }

unfoldable pub options_save : Controller → Controller
options_save c = apply_options (record c {
  nvm_options = λ oid. if ltb oid num_options then c.options oid else c.nvm_options oid;
})

unfoldable pub nvdata_load : Controller → Controller
nvdata_load c = record c {
  nvdata = c.nvm_nvdata;
  old_rain_delayed = c.status.rain_delayed;
  old_rain_sensed = c.status.rain_sensed;
}

unfoldable pub nvdata_save : Controller → Controller
nvdata_save c = record c { nvm_nvdata = c.nvdata }

unfoldable pub enable : Controller → Controller
unfolding options_save apply_options
enable c = options_save (record c {
  status = record (c.status) { enabled = true };
  options = update c.options option_device_enable 1;
})

unfoldable pub disable : Controller → Controller
unfolding options_save apply_options
disable c = options_save (record c {
  status = record (c.status) { enabled = false };
  options = update c.options option_device_enable 0;
})

unfoldable pub raindelay_start : Controller → Controller
unfolding nvdata_save
raindelay_start c = nvdata_save (record c { status = record (c.status) { rain_delayed = true } })

unfoldable pub raindelay_stop : Controller → Controller
unfolding nvdata_save
raindelay_stop c = nvdata_save (record c {
  status = record (c.status) { rain_delayed = false };
  nvdata = record (c.nvdata) { rd_stop_time = 0 };
})

-- `pin` is what `digitalRead(PIN_RAINSENSOR)` returns.
unfoldable pub rainsensor_status : ℕ → Controller → Controller
rainsensor_status pin c =
    if c.options option_sensor_type == sensor_type_rain
    then record c {
      status = record (c.status) { rain_sensed = not (pin == c.options option_rainsensor_type) };
    }
    else c

-- A press is answered when the switch is let go, in a later second.
unfoldable pub programswitch_status : ℕ → ℕ → Controller → Controller × Bool
programswitch_status pin curr_time c =
    if not (c.options option_sensor_type == sensor_type_pswitch)
    then (c, false)
    else if (pin == 0) && (c.keydown_time == 0)
    then (record c { keydown_time = curr_time }, false)
    else if not (pin == 0) && (not (c.keydown_time == 0) && ltb c.keydown_time curr_time)
    then (record c { keydown_time = 0 }, true)
    else (c, false)
