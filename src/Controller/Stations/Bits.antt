-- ===== src/Controller/Stations/Bits.antt =====
-- What the operations on station bits do to each station, and what the valves see.
use indigo_open_sprinkler_pl.Common.{
  ℕ, zero, suc, ◌+◌, ◌-◌, ◌*◌, ◌/◌, ◌%◌, ◌<◌, ◌≡◌, ◌⊎◌, inl, inr, ◌∙◌, arith, Bool, true, false,
  not, if◌then◌else◌, ltb, ◌==◌, Bool-cases, List, ◌∷◌, get_or, bit_test, bit_set, bit_clear,
  bit_test-set, bit_test-clear, bit_set-lt, bit_clear-lt, bit_test-zero, bit_test_mod, update,
  station_split, replay, dec_lt,
}
use indigo_open_sprinkler_pl.Runtime.{max_num_stations}
use indigo_open_sprinkler_pl.Controller.{Controller, special}
use indigo_open_sprinkler_pl.Controller.Stations.{
  station_on, switch_special_station, set_station_bit, clear_all_station_bits, shift_byte,
  shift_boards, apply_all_station_bits,
}

-- Every entry of `station_bits` is a byte.
abbrev pub AreBytes : Controller → Type 0
AreBytes c = (b : ℕ) → c.station_bits b < 256

pub switch_special_station-bits :
    (sid : ℕ) (v : Bool) (c : Controller)
    → (switch_special_station sid v c).station_bits ≡ c.station_bits
unfolding switch_special_station
switch_special_station-bits sid v c = ground arith

-- The array after `set_station_bit`.
abbrev written : ℕ → Bool → Controller → ℕ → ℕ
written sid v c =
    update c.station_bits (sid / 8) (
      if v
      then bit_set (c.station_bits (sid / 8)) sid
      else bit_clear (c.station_bits (sid / 8)) sid)

set_station_bit-bits :
    (sid : ℕ) (v : Bool) (c : Controller)
    → ((station_on c sid ≡ v) × ((set_station_bit sid v c).0 ≡ c))
      ⊎ ((station_on c sid ≡ not v) × ((set_station_bit sid v c).0.station_bits ≡ written sid v c))
unfolding set_station_bit
set_station_bit-bits sid true c = elim (Bool-cases (station_on c sid)) [
  | inl e ↦ inl (e, rw (set_station_bit, e))
  | inr e ↦ inr (e, rw (set_station_bit, e) (switch_special_station-bits sid true _))
]
set_station_bit-bits sid false c = elim (Bool-cases (station_on c sid)) [
  | inl e ↦ inr (e, rw (set_station_bit, e) (switch_special_station-bits sid false _))
  | inr e ↦ inl (e, rw (set_station_bit, e))
]

pub set_station_bit-AreBytes :
    (sid : ℕ) (v : Bool) (c : Controller) → AreBytes c → AreBytes (set_station_bit sid v c).0
unfolding update
set_station_bit-AreBytes sid v c h b = ground (
  arith,
  set_station_bit-bits sid v c,
  bit_set-lt (c.station_bits (sid / 8)) sid (h (sid / 8)),
  bit_clear-lt (c.station_bits (sid / 8)) sid (h (sid / 8)),
  h b,
)

written-on :
    (sid : ℕ) (v : Bool) (c : Controller) (j : ℕ)
    → AreBytes c
    → bit_test (written sid v c (j / 8)) j ≡ (if j == sid then v else station_on c j)
unfolding update
written-on sid true c j h =
    ground (arith, bit_test-set (c.station_bits (sid / 8)) sid j (h (sid / 8)), station_split j sid)
written-on sid false c j h =
    ground
      (arith, bit_test-clear (c.station_bits (sid / 8)) sid j (h (sid / 8)), station_split j sid)

-- `set_station_bit` gives the station the value, and leaves the bit of every other one alone.
pub station_on-set :
    (sid : ℕ) (v : Bool) (c : Controller) (j : ℕ)
    → AreBytes c
    → station_on (set_station_bit sid v c).0 j ≡ (if j == sid then v else station_on c j)
station_on-set sid v c j h = elim (set_station_bit-bits sid v c) [
  | inl (e, same) ↦ rw same (ground arith)
  | inr (e, w) ↦ rw w (written-on sid v c j h)
]

-- The answer is 0 and nothing at all changes for a bit that has the value already; otherwise it is 1
-- or 255 and the special station at that index (and no other) is commanded.
pub set_station_bit_answer :
    (sid : ℕ) (v : Bool) (c : Controller)
    → ((station_on c sid ≡ v)
        → ((set_station_bit sid v c).1 ≡ 0) × ((set_station_bit sid v c).0 ≡ c))
      × ((station_on c sid ≡ not v)
          → ((set_station_bit sid v c).1 ≡ (if v then 1 else 255))
            × ((set_station_bit sid v c).0.events ≡ (
                if bit_test (c.attributes.stnspe (sid / 8)) sid
                then special sid v ∷ c.events
                else c.events)))
unfolding set_station_bit switch_special_station
set_station_bit_answer sid true c = (λ e. ground arith, λ e. ground arith)
set_station_bit_answer sid false c = (λ e. ground arith, λ e. ground arith)

-- The loop of `clear_all_station_bits` after n rounds.
abbrev cleared : ℕ → Controller → Controller
cleared n c = replay n (λ sid s. (set_station_bit sid false s).0) c

cleared-AreBytes : (n : ℕ) (c : Controller) → AreBytes c → AreBytes (cleared n c)
cleared-AreBytes zero c h = h
cleared-AreBytes (suc n) c h =
    set_station_bit-AreBytes n false (cleared n c) (cleared-AreBytes n c h)

cleared-on :
    (n : ℕ) (c : Controller) (j : ℕ)
    → AreBytes c
    → station_on (cleared n c) j ≡ (if ltb j n then false else station_on c j)
cleared-on zero c j h = ground arith
cleared-on (suc n) c j h =
    ground
      (arith, station_on-set n false (cleared n c) j (cleared-AreBytes n c h), cleared-on n c j h)

-- `clear_all_station_bits` turns off every station, and one bit more: the loop's bound is
-- inclusive, so the bit of "station 56" is reset too, in the byte behind the 7 of `station_bits`.
pub station_on-clear_all :
    (c : Controller) (j : ℕ)
    → AreBytes c
    → station_on (clear_all_station_bits c) j
      ≡ (if ltb j (max_num_stations + 1) then false else station_on c j)
unfolding clear_all_station_bits
station_on-clear_all c j h = cleared-on 57 c j h

get_or-shift_byte :
    (b s : ℕ) (rest : List Bool) (i : ℕ)
    → get_or (shift_byte b s rest) i false
      ≡ (if ltb i s then bit_test b (s - 1 - i) else get_or rest (i - s) false)
unfolding shift_byte
get_or-shift_byte b zero rest i = ground arith
get_or-shift_byte b (suc s) rest zero = ground arith
get_or-shift_byte b (suc s) rest (suc i) = ground (arith, get_or-shift_byte b s rest i)

-- What the register shows of a byte.
abbrev shown : Controller → ℕ → ℕ
shown c bid = if c.status.enabled then c.station_bits bid else 0

get_or-shift_boards :
    (c : Controller) (n i : ℕ)
    → i < 8 * n
    → get_or (shift_boards c n) i false ≡ bit_test (shown c (n - 1 - i / 8)) (7 - i % 8)
unfolding shift_boards
get_or-shift_boards c zero i h = absurd (omega arith)
get_or-shift_boards c (suc n) i h =
    let byte = get_or-shift_byte (shown c n) 8 (shift_boards c n) i in
    elim (dec_lt i 8) [
      | yes p ↦
          let a : suc n - 1 - i / 8 ≡ n = omega arith in
          let b : 7 - i % 8 ≡ 8 - 1 - i = omega arith in rw (a, b) (byte ∙ ground arith)
      | no p ↦
          let a : suc n - 1 - i / 8 ≡ n - 1 - (i - 8) / 8 = omega arith in
          let b : 7 - i % 8 ≡ 7 - (i - 8) % 8 = omega arith in
          rw (a, b) (byte ∙ ground (arith, get_or-shift_boards c n (i - 8) (omega arith)))
    ]

-- The bit that `apply_all_station_bits` clocks out at place 55 - sid, so that it ends at output sid
-- of the chain of registers, is the station's bit while the controller is enabled, and 0 otherwise.
pub valves-apply_all :
    (c : Controller) (sid : ℕ)
    → sid < max_num_stations
    → get_or (apply_all_station_bits c).valves (max_num_stations - 1 - sid) false
      ≡ (if c.status.enabled then station_on c sid else false)
unfolding apply_all_station_bits switch_special_station
valves-apply_all c sid h =
    let a : 7 - 1 - (55 - sid) / 8 ≡ sid / 8 = omega arith in
    let b : 7 - (55 - sid) % 8 ≡ sid % 8 = omega arith in
    let e = get_or-shift_boards c 7 (55 - sid) (omega arith) in
    ground (arith, a, b, e, bit_test_mod (shown c (sid / 8)) sid, bit_test-zero sid)
