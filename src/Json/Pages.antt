-- ===== src/Json/Pages.antt =====
-- The pages of stations, of their state and of the controller (firmware/server.cpp).
use indigo_open_sprinkler_pl.Common.{
  ℕ, zero, suc, ◌+◌, ◌-◌, ◌/◌, ◌%◌, Bool, true, false, ltb, leb, ◌==◌, if◌then◌else◌, List, [], ◌∷◌,
  ◌++◌, bit_test, Option, none, some,
}
use indigo_open_sprinkler_pl.Common.Int.{pos}
use indigo_open_sprinkler_pl.WaterTime.{ulong_mod}
use indigo_open_sprinkler_pl.Runtime.{Element, unlinked}
use indigo_open_sprinkler_pl.Http.{head_or_nul, skip}
use indigo_open_sprinkler_pl.Controller.{Controller, now_tz}
use indigo_open_sprinkler_pl.Controller.OptionIndex.{option_sensor_type}
use indigo_open_sprinkler_pl.Controller.Settings.{sensor_type_flow}
use indigo_open_sprinkler_pl.Controller.Stations.{station_on}
use indigo_open_sprinkler_pl.Json.{codes, emit_p, Argument, int, ulong, text}
use indigo_open_sprinkler_pl.Json.Programs.{bit, each}

-- `if (i != n - 1) emit ","`
abbrev pub comma_unless_last : ℕ → ℕ → List ℕ
comma_unless_last i n = if i == n - 1 then [] else codes ","

unfoldable pub server_json_stations_attrib : List ℕ → (ℕ → ℕ) → Controller → List ℕ
server_json_stations_attrib name attrib c =
    emit_p (codes "\"$F\":[") (text name ∷ [])
    ++ each (λ i. emit_p (codes "$D") (int (pos (attrib i)) ∷ []) ++ comma_unless_last i c.nboards)
        0 c.nboards
    ++ codes "],"

abbrev pub station_name_size : ℕ
station_name_size = 24

unfoldable pub server_json_stations_main : Controller → List ℕ
server_json_stations_main c =
    server_json_stations_attrib (codes "masop") c.attributes.mas_op c
    ++ server_json_stations_attrib (codes "ignore_rain") c.attributes.ignrain c
    ++ server_json_stations_attrib (codes "masop2") c.attributes.mas_op_2 c
    ++ server_json_stations_attrib (codes "stn_dis") c.attributes.stndisable c
    ++ server_json_stations_attrib (codes "stn_seq") c.attributes.stnseq c
    ++ server_json_stations_attrib (codes "stn_spe") c.attributes.stnspe c
    ++ codes "\"snames\":["
    ++ each
        (λ sid.
          emit_p (codes "\"$S\"") (text (c.texts.station_names sid) ∷ [])
          ++ comma_unless_last sid c.nstations)
        0 c.nstations
    ++ emit_p (codes "],\"maxlen\":$D}") (int (pos station_name_size) ∷ [])

-- The special stations among n from sid on; `comma` says that one was printed before. The type is
-- the first byte of the data.
unfoldable pub special_entries : Controller → ℕ → ℕ → Bool → List ℕ
special_entries c sid zero comma = []
special_entries c sid (suc n) comma =
    let stored = c.texts.special_data sid in
    let later = special_entries c (suc sid) n true in
    let same = special_entries c (suc sid) n comma in
    if bit_test (c.attributes.stnspe (sid / 8)) sid
    then (if comma then codes "," else [])
      ++ emit_p (codes "\"$D\":{\"st\":$D,\"sd\":\"$S\"}")
          (int (pos sid) ∷ int (pos (head_or_nul stored)) ∷ text (skip stored) ∷ [])
      ++ later
    else same

unfoldable pub server_json_station_special : Controller → List ℕ
server_json_station_special c = codes "{" ++ special_entries c 0 c.nstations false ++ codes "}"

unfoldable pub server_json_status_main : Controller → List ℕ
server_json_status_main c =
    codes "\"sn\":["
    ++ each
        (λ sid.
          emit_p (codes "$D") (int (pos (bit (station_on c sid))) ∷ [])
          ++ comma_unless_last sid c.nstations)
        0 c.nstations
    ++ emit_p (codes "],\"nstations\":$D}") (int (pos c.nstations) ∷ [])

-- The seconds that an element has left, as `unsigned long`; 0 for more than 65535.
unfoldable pub remaining : ℕ → Element → ℕ
remaining curr_time q =
    let left = (q.st + q.dur + ulong_mod - curr_time) % ulong_mod in
    let rem = if leb q.st curr_time then left else q.dur in if ltb 65535 rem then 0 else rem

-- The entry of a station in "ps": program, seconds left and start time of its queue element.
unfoldable pub station_entry : ℕ → Controller → ℕ → List ℕ
station_entry curr_time c sid =
    let qid = c.runtime.station_qid sid in
    let q = c.runtime.queue qid in
    emit_p (codes "[$D,$L,$L]") (
      if ltb qid unlinked
      then int (pos q.pid) ∷ ulong (remaining curr_time q) ∷ ulong q.st ∷ []
      else int (pos 0) ∷ ulong 0 ∷ ulong 0 ∷ [])
    ++ (if ltb sid (c.nstations - 1) then codes "," else codes "]")

abbrev pub flowcount_rt_window : ℕ
flowcount_rt_window = 30

abbrev pub number : ℕ → Argument
number n = int (pos n)

-- `wto` and `ifkey` are the contents of the files of the weather options and of the key of the push
-- service, if they are there.
unfoldable pub server_json_controller_main : Option (List ℕ) → Option (List ℕ) → Controller → List ℕ
server_json_controller_main wto ifkey c =
    let curr_time = now_tz c in
    emit_p (codes "\"devt\":$L,\"nbrd\":$D,\"en\":$D,\"rd\":$D,\"rs\":$D,\"rdst\":$L,") (
      ulong curr_time
      ∷ number c.nboards
      ∷ number (bit c.status.enabled)
      ∷ number (bit c.status.rain_delayed)
      ∷ number (bit c.status.rain_sensed)
      ∷ ulong c.nvdata.rd_stop_time
      ∷ [])
    ++ emit_p
        (codes
          "\"loc\":\"$E\",\"wtkey\":\"$E\",\"sunrise\":$D,\"sunset\":$D,\"eip\":$L,\"lwc\":$L,\"lswc\":$L,")
        (text c.texts.location
          ∷ text c.texts.weather_key
          ∷ number c.nvdata.sunrise_time
          ∷ number c.nvdata.sunset_time
          ∷ ulong c.nvdata.external_ip
          ∷ ulong c.checkwt_lasttime
          ∷ ulong c.checkwt_success_lasttime
          ∷ [])
    ++ emit_p (codes "\"lrun\":[$D,$D,$D,$L],") (
        number c.lastrun.station
        ∷ number c.lastrun.program
        ∷ number c.lastrun.duration
        ∷ ulong c.lastrun.endtime
        ∷ [])
    ++ (if c.options option_sensor_type == sensor_type_flow
        then emit_p (codes "\"flcrt\":$L,\"flwrt\":$D,")
            (ulong c.flowcount_rt ∷ number flowcount_rt_window ∷ [])
        else [])
    ++ codes "\"sbits\":["
    ++ each (λ bid. emit_p (codes "$D,") (number (c.station_bits bid) ∷ [])) 0 c.nboards
    ++ codes "0],\"ps\":["
    ++ each (station_entry curr_time c) 0 c.nstations
    ++ elim wto [ none ↦ [] | some w ↦ emit_p (codes ",\"wto\":{$S}") (text w ∷ []) ]
    ++ elim ifkey [ none ↦ [] | some k ↦ emit_p (codes ",\"ifkey\":\"$S\"") (text k ∷ []) ]
    ++ codes "}"
