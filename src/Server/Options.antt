-- ===== src/Server/Options.antt =====
-- The handlers of options, addresses and the password (`/co`, `/cu`, `/sp`).
use indigo_open_sprinkler_pl.Common.{
  ℕ, ◌-◌, Bool, true, false, not, ◌&&◌, ◌||◌, leb, ◌==◌, if◌then◌else◌, List, [], ◌∷◌, Option, none,
  some, take, update, replay,
}
use indigo_open_sprinkler_pl.Common.Int.{ℤ, pos, negsuc}
use indigo_open_sprinkler_pl.WaterTime.{water_time_encode_signed}
use indigo_open_sprinkler_pl.Program.{int16_of}
use indigo_open_sprinkler_pl.Http.{
  find_nonempty, find_key_val, tmp_buffer_size, atol, decoded, itoa, to_uint16, max_user_password,
}
use indigo_open_sprinkler_pl.Controller.{Controller}
use indigo_open_sprinkler_pl.Controller.OptionIndex.{
  option_fw_version, option_timezone, option_use_ntp, option_hw_version, option_sequential_retired,
  option_station_delay_time, option_master_on_adj, option_master_off_adj, option_device_enable,
  option_use_weather, option_ntp_ip1, option_ntp_ip4, option_master_on_adj_2,
  option_master_off_adj_2, option_fw_minor, option_remote_ext_mode, option_reset, num_options,
  op_max,
}
use indigo_open_sprinkler_pl.Controller.Settings.{options_save}
use indigo_open_sprinkler_pl.Scheduler.{reset_all_stations_immediate}
use indigo_open_sprinkler_pl.Server.{
  Result, html_success, html_data_missing, html_data_out_of_bound, html_mismatch,
  html_redirect_home,
}

-- Options that `/co` does not touch.
abbrev pub is_protected : ℕ → Bool
is_protected oid =
    (oid == option_reset)
    || ((oid == option_device_enable)
        || ((oid == option_fw_version)
            || ((oid == option_hw_version)
                || ((oid == option_fw_minor)
                    || ((oid == option_sequential_retired) || (oid == option_remote_ext_mode))))))

-- Options whose byte encodes a signed time.
abbrev pub is_signed_time : ℕ → Bool
is_signed_time oid =
    (oid == option_master_off_adj)
    || ((oid == option_master_off_adj_2)
        || ((oid == option_master_on_adj)
            || ((oid == option_master_on_adj_2) || (oid == option_station_delay_time))))

-- 'o' and the number of the option.
abbrev pub key_option : ℕ → List ℕ
key_option oid = 111 ∷ itoa oid

-- The number that is stored for the text of a value.
unfoldable pub encode_option : ℕ → List ℕ → ℤ
encode_option oid text =
    let v = atol text in
    if is_signed_time oid then pos (water_time_encode_signed (int16_of (to_uint16 v))) else v

abbrev pub in_range : ℕ → ℤ → Bool
in_range max_value (pos n) = leb n max_value
in_range max_value (negsuc n) = false

abbrev pub value_of : ℤ → ℕ
value_of (pos n) = n
value_of (negsuc n) = 0

-- What the loop notes besides the options.
pub record Changes : Type 0 where
  pub options : ℕ → ℕ
  pub err : Bool
  pub time_change : Bool
  pub weather_change : Bool

-- The new value of an option, and whether the one that was given is out of range.
unfoldable pub option_value : ℕ → Option (List ℕ) → ℕ → ℕ × Bool
option_value oid none prev = (if op_max oid == 1 then 0 else prev, false)
option_value oid (some text) prev =
    let v = encode_option oid text in
    if op_max oid == 1
    then (1, false)
    else if in_range (op_max oid) v
    then (value_of v, false)
    else (prev, true)

-- One round of the loop over the options.
unfoldable pub change_option : List ℕ → ℕ → Changes → Changes
change_option p oid k =
    let prev = k.options oid in
    let (new, wrong) = option_value oid (find_nonempty (key_option oid) p) prev in
    let changed = not (new == prev) in
    if is_protected oid then k else record {
      options = update k.options oid new;
      err = k.err || wrong;
      time_change =
          k.time_change
          || (changed
              && (((oid == option_timezone) || (oid == option_use_ntp))
                  || (leb option_ntp_ip1 oid && leb oid option_ntp_ip4)));
      weather_change = k.weather_change || (changed && (oid == option_use_weather));
    }

unfoldable pub change_all_options : List ℕ → Controller → Changes
change_all_options p c =
    replay num_options (change_option p)
      (record { options = c.options; err = false; time_change = false; weather_change = false })

abbrev pub same_text : List ℕ → List ℕ → Bool
same_text [] [] = true
same_text [] (y ∷ ys) = false
same_text (x ∷ xs) [] = false
same_text (x ∷ xs) (y ∷ ys) = (x == y) && same_text xs ys

abbrev pub key_loc : List ℕ
key_loc = 108 ∷ 111 ∷ 99 ∷ []

abbrev pub key_wtkey : List ℕ
key_wtkey = 119 ∷ 116 ∷ 107 ∷ 101 ∷ 121 ∷ []

abbrev pub key_ifkey : List ℕ
key_ifkey = 105 ∷ 102 ∷ 107 ∷ 101 ∷ 121 ∷ []

abbrev pub key_ttt : List ℕ
key_ttt = 116 ∷ 116 ∷ 116 ∷ []

abbrev pub key_wto : List ℕ
key_wto = 119 ∷ 116 ∷ 111 ∷ []

-- A decoded value that is cut to n characters; `rest` lies behind it in the buffer.
abbrev pub cut : ℕ → List ℕ → List ℕ → List ℕ
cut n v rest = take n (decoded v rest)

-- The location, with the note that the weather must be asked for again.
unfoldable pub change_location : List ℕ → Controller × Bool → Controller × Bool
change_location p (c, weather) = elim (find_nonempty key_loc p) [
  | none ↦ (c, weather)
  | some v ↦
      let place = cut 47 v (c.buffer_rest key_loc) in
      if same_text place c.texts.location
      then (c, weather)
      else (record c { texts = record (c.texts) { location = place } }, true)
]

-- The key of the weather service; an empty value clears it.
unfoldable pub change_weather_key : List ℕ → Controller × Bool → Controller × Bool
change_weather_key p (c, weather) = elim (find_key_val tmp_buffer_size key_wtkey p) [
  | none ↦ (c, weather)
  | some [] ↦ (record c { texts = record (c.texts) { weather_key = [] } }, weather)
  | some (x ∷ xs) ↦
      let key = cut 23 (x ∷ xs) (c.buffer_rest key_wtkey) in
      if same_text key c.texts.weather_key
      then (c, weather)
      else (record c { texts = record (c.texts) { weather_key = key } }, true)
]

abbrev pub is_nonempty : List ℕ → Bool
is_nonempty [] = false
is_nonempty (x ∷ xs) = true

-- The key of the push service.
unfoldable pub change_ifttt_key : List ℕ → Controller → Controller
change_ifttt_key p c = elim (find_key_val tmp_buffer_size key_ifkey p) [
  | none ↦ c
  | some v ↦ record c { has_ifttt_key = is_nonempty (decoded v (c.buffer_rest key_ifkey)) }
]

-- A time that is set by hand: the stations are reset; the build for Linux does not set the time.
unfoldable pub change_time : List ℕ → Controller → Controller
change_time p c = elim (find_nonempty key_ttt p) [
  | none ↦ c
  | some v ↦ if c.options option_use_ntp == 0 then reset_all_stations_immediate c else c
]

unfoldable pub change_weather_options : List ℕ → Controller × Bool → Controller × Bool
change_weather_options p (c, weather) = elim (find_nonempty key_wto p) [
  | none ↦ (c, weather)
  | some v ↦
      let weather_options = decoded v (c.buffer_rest key_wto) in
      (record c { texts = record (c.texts) { weather_options = weather_options } }, true)
]

-- `/co`
unfoldable pub server_change_options : List ℕ → Controller → Controller × Result
server_change_options p c =
    let k = change_all_options p c in
    let (keyed, weather) =
      change_weather_key p
        (change_location p (record c { options = k.options }, k.weather_change)) in
    let (timed, force) =
      change_weather_options p (change_time p (change_ifttt_key p keyed), weather) in
    let saved = options_save timed in
    let synced =
      if k.time_change
      then record saved { status = record (saved.status) { req_ntpsync = true } }
      else saved in
    if k.err
    then (timed, html_data_out_of_bound)
    else ((if force then record synced { checkwt_lasttime = 0 } else synced), html_success)

abbrev pub key_jsp : List ℕ
key_jsp = 106 ∷ 115 ∷ 112 ∷ []

abbrev pub key_wsp : List ℕ
key_wsp = 119 ∷ 115 ∷ 112 ∷ []

unfoldable pub string_remove_space : List ℕ → List ℕ
string_remove_space [] = []
string_remove_space (c ∷ cs) =
    let rest = string_remove_space cs in if c == 32 then rest else c ∷ rest

-- `/cu`
unfoldable pub server_change_scripturl : List ℕ → Controller → Controller × Result
server_change_scripturl p c =
    let scripted : Controller = elim (find_nonempty key_jsp p) [
      | none ↦ c
      | some v ↦ record c {
        texts = record (c.texts) {
          javascript_url = string_remove_space (cut 48 v (c.buffer_rest key_jsp));
        };
      }
    ] in
    elim (find_nonempty key_wsp p) [
      | none ↦ (scripted, html_redirect_home)
      | some v ↦ (
        record scripted {
          texts = record (scripted.texts) {
            weather_url = string_remove_space (cut 48 v (c.buffer_rest key_wsp));
          };
        },
        html_redirect_home,
      )
    ]

abbrev pub key_npw : List ℕ
key_npw = 110 ∷ 112 ∷ 119 ∷ []

abbrev pub key_cpw : List ℕ
key_cpw = 99 ∷ 112 ∷ 119 ∷ []

-- `/sp`; `strncmp` compares at most 36 characters.
unfoldable pub server_change_password : List ℕ → Controller → Controller × Result
server_change_password p c = elim (find_nonempty key_npw p) [
  | none ↦ (c, html_data_missing)
  | some v ↦ elim (find_nonempty key_cpw p) [
    | none ↦ (c, html_mismatch)
    | some w ↦
        if same_text (take max_user_password v) (take max_user_password w)
        then (
          record c {
            texts = record (c.texts) {
              password = cut (max_user_password - 1) v (c.buffer_rest key_npw);
            };
          },
          html_success,
        )
        else (c, html_mismatch)
  ]
]
