-- ===== src/Controller/Stations.antt =====
-- Station bits of firmware/OpenSprinkler.cpp, and the shift register that drives the valves.
pub mod Bits
pub mod Frame
use indigo_open_sprinkler_pl.Common.{
  ℕ, zero, suc, ◌+◌, ◌-◌, ◌*◌, ◌/◌, ◌%◌, Bool, true, false, not, ◌&&◌, ltb, ◌==◌, if◌then◌else◌,
  List, [], ◌∷◌, bit_test, bit_set, bit_clear, update, replay,
}
use indigo_open_sprinkler_pl.Runtime.{max_num_stations}
use indigo_open_sprinkler_pl.Controller.{Controller, Event, special}
use indigo_open_sprinkler_pl.Controller.OptionIndex.{option_spe_auto_refresh}

abbrev pub max_ext_boards : ℕ
max_ext_boards = 6

-- `(station_bits[sid >> 3] >> (sid & 7)) & 1`
abbrev pub station_on : Controller → ℕ → Bool
station_on c sid = bit_test (c.station_bits (sid / 8)) sid

-- The commands to RF, remote, GPIO and HTTP stations are one kind of event.
unfoldable pub switch_special_station : ℕ → Bool → Controller → Controller
switch_special_station sid value c =
    if bit_test (c.attributes.stnspe (sid / 8)) sid
    then record c { events = special sid value ∷ c.events }
    else c

-- The new state, and 1 for a bit that was set, 255 for one that was reset and 0 for no change.
unfoldable pub set_station_bit : ℕ → Bool → Controller → Controller × ℕ
set_station_bit sid true c = if station_on c sid then (c, 0) else (
  switch_special_station sid true (record c {
    station_bits = update c.station_bits (sid / 8) (bit_set (c.station_bits (sid / 8)) sid);
  }),
  1,
)
set_station_bit sid false c =
    if station_on c sid
    then (
      switch_special_station sid false (record c {
        station_bits = update c.station_bits (sid / 8) (bit_clear (c.station_bits (sid / 8)) sid);
      }),
      255,
    )
    else (c, 0)

-- The loop runs up to and including `MAX_NUM_STATIONS`.
unfoldable pub clear_all_station_bits : Controller → Controller
clear_all_station_bits c =
    replay (max_num_stations + 1) (λ sid s. (set_station_bit sid false s).0) c

-- The bits of one byte, from the highest to the lowest.
unfoldable pub shift_byte : ℕ → ℕ → List Bool → List Bool
shift_byte b zero rest = rest
shift_byte b (suc s) rest = bit_test b s ∷ shift_byte b s rest

-- The bits that are clocked out, the board with the highest index first.
unfoldable pub shift_boards : Controller → ℕ → List Bool
shift_boards c zero = []
shift_boards c (suc bid) =
    shift_byte (if c.status.enabled then c.station_bits bid else 0) 8 (shift_boards c bid)

-- The register takes in one bit for each clock, and the latch shows it to the valves. With the
-- auto refresh option the special station whose index is the time modulo 56 is switched again.
unfoldable pub apply_all_station_bits : Controller → Controller
apply_all_station_bits c =
    let shown = record c { valves = shift_boards c (max_ext_boards + 1) } in
    let sid = c.clock % max_num_stations in
    if c.options option_spe_auto_refresh == 0
    then shown
    else if sid == c.last_sid
    then shown
    else switch_special_station sid (station_on c sid) (record shown { last_sid = sid })
