-- ===== src/Server/Stations.antt =====
-- The handler of station names and attributes (`/cs`), in the build for the Raspberry Pi.
use indigo_open_sprinkler_pl.Common.{
  ℕ, ◌+◌, ◌*◌, ◌%◌, Bool, ◌&&◌, ◌||◌, ltb, leb, ◌==◌, if◌then◌else◌, List, [], ◌∷◌, Option, none,
  some, take, update, length,
}
use indigo_open_sprinkler_pl.Common.Int.{ℤ}
use indigo_open_sprinkler_pl.Http.{
  find_nonempty, atol, decoded, text_of, itoa, to_uint16, head_or_nul, skip,
}
use indigo_open_sprinkler_pl.Controller.{Controller}
use indigo_open_sprinkler_pl.Server.{
  Result, html_success, html_data_missing, html_data_out_of_bound, key_sid,
}

-- The low byte of a number.
abbrev pub to_byte : ℤ → ℕ
to_byte v = to_uint16 v % 256

-- One attribute byte for each board that the request names, by a letter and the board's number.
unfoldable pub change_attrib : List ℕ → ℕ → ℕ → (ℕ → ℕ) → ℕ → ℕ
change_attrib p header nboards attrib bid = elim (find_nonempty (header ∷ itoa bid) p) [
  | none ↦ attrib bid
  | some v ↦ if ltb bid nboards then to_byte (atol v) else attrib bid
]

-- Names have 24 characters at most.
unfoldable pub change_name : List ℕ → (List ℕ → List ℕ) → ℕ → (ℕ → List ℕ) → ℕ → List ℕ
change_name p rest nstations names sid = elim (find_nonempty (115 ∷ itoa sid) p) [
  | none ↦ names sid
  | some v ↦ if ltb sid nstations then take 24 (decoded v (rest (115 ∷ itoa sid))) else names sid
]

unfoldable pub change_names_and_bits : List ℕ → Controller → Controller
change_names_and_bits p c =
    let a = c.attributes in
    let change = λ (header : ℕ) (attrib : ℕ → ℕ). change_attrib p header c.nboards attrib in
    record c {
      texts = record (c.texts) {
        station_names = change_name p c.buffer_rest c.nstations c.texts.station_names;
      };
      attributes = record {
        mas_op = change 109 a.mas_op;
        ignrain = change 105 a.ignrain;
        mas_op_2 = change 110 a.mas_op_2;
        stndisable = change 100 a.stndisable;
        stnseq = change 113 a.stnseq;
        stnspe = change 112 a.stnspe;
      };
    }

abbrev pub stn_type_gpio : ℕ
stn_type_gpio = 3

abbrev pub stn_type_http : ℕ
stn_type_http = 4

-- `PIN_FREE_LIST` of the Raspberry Pi.
abbrev pub pin_free : ℕ → Bool
pin_free gpio =
    (leb 5 gpio && leb gpio 13)
    || ((gpio == 16) || ((leb 18 gpio && leb gpio 21) || (leb 23 gpio && leb gpio 26)))

-- What a byte becomes when '0' is taken off.
abbrev pub minus_zero : ℕ → ℕ
minus_zero c = (c + 208) % 256

-- The two digits of a pin, and the active state behind them.
unfoldable pub gpio_valid : List ℕ → Bool
gpio_valid text =
    let gpio = (minus_zero (head_or_nul text) * 10 + minus_zero (head_or_nul (skip text))) % 256 in
    pin_free gpio && leb (minus_zero (head_or_nul (skip (skip text)))) 1

abbrev pub special_data_size : ℕ
special_data_size = 247

-- The data that is stored for a type and its text, unless they are refused.
unfoldable pub special_data_of : ℕ → List ℕ → List ℕ → Option (List ℕ)
special_data_of type text rest =
    let plain = decoded text rest in
    if type == stn_type_gpio
    then (if gpio_valid text then some (text_of (type ∷ text)) else none)
    else if type == stn_type_http
    then (if ltb special_data_size (length plain) then none else some (text_of (type ∷ plain)))
    else some (text_of (type ∷ text))

abbrev pub key_st : List ℕ
key_st = 115 ∷ 116 ∷ []

abbrev pub key_sd : List ℕ
key_sd = 115 ∷ 100 ∷ []

unfoldable pub store_special : ℕ → ℕ → List ℕ → Controller → Controller × Result
store_special sid type text c = elim (special_data_of type text (c.buffer_rest key_sd)) [
  | none ↦ (c, html_data_out_of_bound)
  | some stored ↦ (
    record c { texts = record (c.texts) { special_data = update c.texts.special_data sid stored } },
    html_success,
  )
]

-- The special data of a station; the number may be that of the station behind the last one.
unfoldable pub change_special : List ℕ → Controller → Controller × Result
change_special p c = elim (find_nonempty key_sid p) [
  | none ↦ (c, html_success)
  | some v ↦
      let sid = to_byte (atol v) in
      if ltb c.nstations sid then (c, html_data_out_of_bound) else elim (find_nonempty key_st p) [
        | none ↦ (c, html_data_missing)
        | some st ↦ elim (find_nonempty key_sd p) [
          | none ↦ (c, html_data_missing)
          | some sd ↦ store_special sid (minus_zero (head_or_nul st)) (take 246 sd) c
        ]
      ]
]

-- `/cs`
unfoldable pub server_change_stations : List ℕ → Controller → Controller × Result
server_change_stations p c = change_special p (change_names_and_bits p c)
