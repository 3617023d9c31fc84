-- ===== src/Message.antt =====
-- The text of a push message (`push_message` of firmware/main.cpp), in the build for Linux. The flow
-- rate, a float, is not printed to it there.
mod Tests
use indigo_open_sprinkler_pl.Common.{
  ℕ, zero, suc, ◌+◌, ◌-◌, ◌*◌, ◌/◌, ◌%◌, Bool, true, false, ltb, ◌==◌, if◌then◌else◌, List, [], ◌∷◌,
  ◌++◌,
}
use indigo_open_sprinkler_pl.Common.Int.{ℤ, pos, negsuc}
use indigo_open_sprinkler_pl.WaterTime.{ulong_mod}
use indigo_open_sprinkler_pl.Http.{negated, text_of}
use indigo_open_sprinkler_pl.Controller.{
  Controller, MessageType, program_sched, rainsensor, flowsensor, weather_update, reboot,
  station_run,
}
use indigo_open_sprinkler_pl.Controller.OptionIndex.{option_sensor_type}
use indigo_open_sprinkler_pl.Controller.Settings.{sensor_type_flow}
use indigo_open_sprinkler_pl.Json.{codes, print_int, ultoa}

abbrev option_pulse_rate_0 : ℕ
option_pulse_rate_0 = 41

abbrev option_pulse_rate_1 : ℕ
option_pulse_rate_1 = 42

-- `LOGDATA_RAINDELAY`
abbrev log_raindelay_code : ℕ
log_raindelay_code = 2

-- The quotient and the remainder of an `int` by n; both round towards 0.
abbrev int_div : ℤ → ℕ → ℤ
int_div (pos v) n = pos (v / n)
int_div (negsuc v) n = negated ((v + 1) / n)

abbrev int_rem : ℤ → ℕ → ℤ
int_rem (pos v) n = pos (v % n)
int_rem (negsuc v) n = negated ((v + 1) % n)

-- The `int` that a `uint32_t` converts to.
abbrev int_of_uint32 : ℕ → ℤ
int_of_uint32 n = if ltb n 2147483648 then pos n else negsuc (ulong_mod - 1 - n)

unfoldable pub ip2string : ℕ → List ℕ
ip2string ip =
    ultoa (ip / 16777216 % 256)
    ++ codes "."
    ++ ultoa (ip / 65536 % 256)
    ++ codes "."
    ++ ultoa (ip / 256 % 256)
    ++ codes "."
    ++ ultoa (ip % 256)

-- The volume of a number of pulses, in hundredths, by the two bytes of the pulse rate.
unfoldable pub flow_volume : ℕ → Controller → ℕ
flow_volume count c =
    (count * (c.options option_pulse_rate_1 * 256 + c.options option_pulse_rate_0)) % ulong_mod

-- The text of each type of message; `manual` says that a text was given (`sval`).
unfoldable pub message_body : MessageType → ℕ → ℤ → Bool → Controller → List ℕ
message_body station_run lval fval manual c =
    codes "Station "
    ++ c.texts.station_names lval
    ++ codes " closed. It ran for "
    ++ print_int (int_div fval 60)
    ++ codes " minutes "
    ++ print_int (int_rem fval 60)
    ++ codes " seconds."
    ++ (if c.options option_sensor_type == sensor_type_flow then codes " Flow rate: " else [])
message_body program_sched lval fval manual c =
    (if manual then codes "Manually scheduled " else codes "Automatically scheduled ")
    ++ codes "Program "
    ++ (if ltb lval c.nprograms then text_of (c.programs lval).name else [])
    ++ codes " with "
    ++ print_int fval
    ++ codes "% water level."
message_body rainsensor lval fval manual c =
    (if lval == log_raindelay_code then codes "Rain delay " else codes "Rain sensor ")
    ++ elim fval [ pos zero ↦ codes "de-activated" | other ↦ codes "activated." ]
message_body flowsensor lval fval manual c =
    codes "Flow count: "
    ++ print_int (int_of_uint32 lval)
    ++ codes ", volume: "
    ++ ultoa (flow_volume lval c / 100)
    ++ codes "."
    ++ ultoa (flow_volume lval c % 100)
message_body weather_update lval fval manual c =
    (if ltb 0 lval then codes "External IP updated: " ++ ip2string lval else []) ++ elim fval [
      | pos level ↦ codes "Water level updated: " ++ ultoa level ++ codes "%."
      | negsuc n ↦ []
    ]
message_body reboot lval fval manual c = codes "Process restarted."

unfoldable pub message_text : MessageType → ℕ → ℤ → Bool → Controller → List ℕ
message_text type lval fval manual c =
    codes "{\"value1\":\"" ++ message_body type lval fval manual c ++ codes "\"}"
