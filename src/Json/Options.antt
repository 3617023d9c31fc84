-- ===== src/Json/Options.antt =====
-- The page of options, the page of everything and the home page (firmware/server.cpp), in the build
-- for Linux.
use indigo_open_sprinkler_pl.Common.{
  ℕ, Bool, ◌&&◌, ◌||◌, leb, ◌==◌, if◌then◌else◌, List, [], ◌∷◌, ◌++◌, Option, get_or,
}
use indigo_open_sprinkler_pl.Common.Int.{ℤ, pos}
use indigo_open_sprinkler_pl.WaterTime.{water_time_decode_signed}
use indigo_open_sprinkler_pl.Controller.{Controller}
use indigo_open_sprinkler_pl.Controller.OptionIndex.{
  num_options, option_use_ntp, option_sequential_retired, option_device_id, option_ignore_password,
}
use indigo_open_sprinkler_pl.Controller.Stations.{max_ext_boards}
use indigo_open_sprinkler_pl.Server.Options.{is_signed_time}
use indigo_open_sprinkler_pl.Json.{codes, emit_p, int, text}
use indigo_open_sprinkler_pl.Json.Programs.{each, server_json_programs_main}
use indigo_open_sprinkler_pl.Json.Pages.{
  comma_unless_last, number, server_json_controller_main, server_json_status_main,
  server_json_stations_main,
}

abbrev pub op_json_names : List (List ℕ)
op_json_names =
    codes "fwv"
    ∷ codes "tz"
    ∷ codes "ntp"
    ∷ codes "dhcp"
    ∷ codes "ip1"
    ∷ codes "ip2"
    ∷ codes "ip3"
    ∷ codes "ip4"
    ∷ codes "gw1"
    ∷ codes "gw2"
    ∷ codes "gw3"
    ∷ codes "gw4"
    ∷ codes "hp0"
    ∷ codes "hp1"
    ∷ codes "hwv"
    ∷ codes "ext"
    ∷ codes "seq"
    ∷ codes "sdt"
    ∷ codes "mas"
    ∷ codes "mton"
    ∷ codes "mtof"
    ∷ codes "urs"
    ∷ codes "rso"
    ∷ codes "wl"
    ∷ codes "den"
    ∷ codes "ipas"
    ∷ codes "devid"
    ∷ codes "con"
    ∷ codes "lit"
    ∷ codes "dim"
    ∷ codes "bst"
    ∷ codes "uwt"
    ∷ codes "ntp1"
    ∷ codes "ntp2"
    ∷ codes "ntp3"
    ∷ codes "ntp4"
    ∷ codes "lg"
    ∷ codes "mas2"
    ∷ codes "mton2"
    ∷ codes "mtof2"
    ∷ codes "fwm"
    ∷ codes "fpr0"
    ∷ codes "fpr1"
    ∷ codes "re"
    ∷ codes "dns1"
    ∷ codes "dns2"
    ∷ codes "dns3"
    ∷ codes "dns4"
    ∷ codes "sar"
    ∷ codes "ife"
    ∷ codes "reset"
    ∷ []

abbrev pub option_gateway_ip4 : ℕ
option_gateway_ip4 = 11

abbrev pub option_boost_time : ℕ
option_boost_time = 30

-- Options that are not printed: those from OPTION_USE_NTP to OPTION_GATEWAY_IP4, which the Linux
-- build does not use, and three more; the device's number if the hardware has an address.
unfoldable pub is_hidden : Bool → ℕ → Bool
is_hidden has_hwmac oid =
    (leb option_use_ntp oid && leb oid option_gateway_ip4)
    || ((oid == option_boost_time)
        || ((oid == option_sequential_retired) || ((oid == option_device_id) && has_hwmac)))

-- The number that is printed for an option.
unfoldable pub shown_value : ℕ → ℕ → ℤ
shown_value oid v = if is_signed_time oid then water_time_decode_signed v else pos v

unfoldable pub option_entry : ℕ → ℕ → List ℕ
option_entry oid v =
    emit_p (codes "\"$S\":$D") (text (get_or op_json_names oid []) ∷ int (shown_value oid v) ∷ [])

-- `detected` is what `detect_exp` finds, `hw_type` the type of the hardware.
unfoldable pub server_json_options_main : Bool → ℤ → ℕ → Controller → List ℕ
server_json_options_main has_hwmac detected hw_type c =
    each
      (λ oid.
        if is_hidden has_hwmac oid
        then []
        else option_entry oid (c.options oid) ++ comma_unless_last oid num_options)
      0 num_options
    ++ emit_p (codes ",\"dexp\":$D,\"mexp\":$D,\"hwt\":$D}")
        (int detected ∷ number max_ext_boards ∷ number hw_type ∷ [])

-- `/ja`
unfoldable pub server_json_all :
    Option (List ℕ) → Option (List ℕ) → Bool → ℤ → ℕ → Controller → List ℕ
server_json_all wto ifkey has_hwmac detected hw_type c =
    codes "{\"settings\":{"
    ++ server_json_controller_main wto ifkey c
    ++ codes ",\"programs\":{"
    ++ server_json_programs_main c
    ++ codes ",\"options\":{"
    ++ server_json_options_main has_hwmac detected hw_type c
    ++ codes ",\"status\":{"
    ++ server_json_status_main c
    ++ codes ",\"stations\":{"
    ++ server_json_stations_main c
    ++ codes "}"

abbrev pub os_fw_version : ℕ
os_fw_version = 217

abbrev pub html_mobile_header : List ℕ
html_mobile_header =
    codes "<meta name=\"viewport\" content=\"width=device-width,initial-scale=1.0,"
    ++ codes "minimum-scale=1.0,user-scalable=no\">\r\n"

unfoldable pub server_home : Controller → List ℕ
server_home c =
    emit_p (codes "<!DOCTYPE html>\n<html>\n<head>\n$F</head>\n<body>\n<script>")
      (text html_mobile_header ∷ [])
    ++ emit_p (codes "var ver=$D,ipas=$D;</script>\n")
        (number os_fw_version ∷ number (c.options option_ignore_password) ∷ [])
    ++ emit_p (codes "<script src=\"$E/home.js\"></script>\n</body>\n</html>")
        (text c.texts.javascript_url ∷ [])
