-- ===== src/Controller/OptionIndex.antt =====
-- `OS_OPTION_t` of firmware/defines.h and `op_max` of OpenSprinkler.cpp.
use indigo_open_sprinkler_pl.Common.{ℕ, List, [], ◌∷◌, get_or}

abbrev pub option_fw_version : ℕ
option_fw_version = 0

abbrev pub option_timezone : ℕ
option_timezone = 1

abbrev pub option_use_ntp : ℕ
option_use_ntp = 2

abbrev pub option_use_dhcp : ℕ
option_use_dhcp = 3

abbrev pub option_httpport_1 : ℕ
option_httpport_1 = 13

abbrev pub option_hw_version : ℕ
option_hw_version = 14

abbrev pub option_ext_boards : ℕ
option_ext_boards = 15

abbrev pub option_sequential_retired : ℕ
option_sequential_retired = 16

abbrev pub option_station_delay_time : ℕ
option_station_delay_time = 17

abbrev pub option_master_station : ℕ
option_master_station = 18

abbrev pub option_master_on_adj : ℕ
option_master_on_adj = 19

abbrev pub option_master_off_adj : ℕ
option_master_off_adj = 20

abbrev pub option_sensor_type : ℕ
option_sensor_type = 21

abbrev pub option_rainsensor_type : ℕ
option_rainsensor_type = 22

abbrev pub option_water_percentage : ℕ
option_water_percentage = 23

abbrev pub option_device_enable : ℕ
option_device_enable = 24

abbrev pub option_ignore_password : ℕ
option_ignore_password = 25

abbrev pub option_device_id : ℕ
option_device_id = 26

abbrev pub option_use_weather : ℕ
option_use_weather = 31

abbrev pub option_ntp_ip1 : ℕ
option_ntp_ip1 = 32

abbrev pub option_ntp_ip4 : ℕ
option_ntp_ip4 = 35

abbrev pub option_enable_logging : ℕ
option_enable_logging = 36

abbrev pub option_master_station_2 : ℕ
option_master_station_2 = 37

abbrev pub option_master_on_adj_2 : ℕ
option_master_on_adj_2 = 38

abbrev pub option_master_off_adj_2 : ℕ
option_master_off_adj_2 = 39

abbrev pub option_fw_minor : ℕ
option_fw_minor = 40

abbrev pub option_remote_ext_mode : ℕ
option_remote_ext_mode = 43

abbrev pub option_spe_auto_refresh : ℕ
option_spe_auto_refresh = 48

abbrev pub option_ifttt_enable : ℕ
option_ifttt_enable = 49

abbrev pub option_reset : ℕ
option_reset = 50

abbrev pub num_options : ℕ
num_options = 51

abbrev op_max_table : List ℕ
op_max_table =
    0 ∷ 108 ∷ 1 ∷ 1 ∷ 255 ∷ 255 ∷ 255 ∷ 255 ∷ 255 ∷ 255 ∷ 255 ∷ 255 ∷ 255 ∷ 255 ∷ 0 ∷ 6 ∷ 1 ∷ 255
    ∷ 56 ∷ 255 ∷ 255 ∷ 255 ∷ 1 ∷ 250 ∷ 1 ∷ 1 ∷ 255 ∷ 255 ∷ 255 ∷ 255 ∷ 250 ∷ 255 ∷ 255 ∷ 255 ∷ 255
    ∷ 255 ∷ 1 ∷ 56 ∷ 255 ∷ 255 ∷ 0 ∷ 255 ∷ 255 ∷ 1 ∷ 255 ∷ 255 ∷ 255 ∷ 255 ∷ 1 ∷ 255 ∷ 1 ∷ []

-- The largest value of each option.
unfoldable pub op_max : ℕ → ℕ
op_max oid = get_or op_max_table oid 0
