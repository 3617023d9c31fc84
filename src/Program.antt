-- ===== src/Program.antt =====
-- firmware/program.h and program.cpp: a watering program and the test whether it starts at a given
-- minute, in the build for Linux (`int` has 32 bits, `time_t` and `ulong` have 32). An `int16_t`
-- start time is its bit pattern, a number below 65536. `gmtime` of the C library is a parameter.
pub mod StartTime
pub mod Days
pub mod Faults
pub mod Match
mod Tests
use indigo_open_sprinkler_pl.Common.{
  ℕ, zero, suc, ◌+◌, ◌-◌, ◌*◌, ◌/◌, ◌%◌, Bool, true, false, not, ◌&&◌, ◌||◌, ltb, leb, ◌==◌,
  if◌then◌else◌, Option, none, some, List, bit_test,
}
use indigo_open_sprinkler_pl.Common.Int.{ℤ, pos, negsuc, pos_part, neg_part, ◌+ℤ◌, ltb_ℤ, sub_ℕ}
use indigo_open_sprinkler_pl.WaterTime.{ulong_mod}

-- `byte type :2`
pub data ProgramType : Type 0 where
  weekly biweekly monthly interval : ProgramType

-- `byte oddeven :2`
pub data OddEven : Type 0 where
  unrestricted odd even not_available : OddEven

pub record ProgramStruct : Type 0 where
  pub enabled : Bool
  pub use_weather : Bool
  pub oddeven : OddEven
  pub type : ProgramType
  pub starttime_type : Bool
  pub days0 : ℕ
  pub days1 : ℕ
  pub starttimes : ℕ → ℕ
  pub durations : ℕ → ℕ
  pub name : List ℕ

-- The fields that the source reads of the C library's `struct tm`.
pub record Tm : Type 0 where
  pub wday : ℕ
  pub mday : ℕ
  pub mon : ℕ

abbrev pub secs_per_day : ℕ
secs_per_day = 86400

abbrev pub max_num_starttimes : ℕ
max_num_starttimes = 4

-- The value of an `int16_t` with the bits `u`.
abbrev pub int16_of : ℕ → ℤ
int16_of u = if ltb u 32768 then pos u else negsuc (65535 - u)

-- The bits of an `int` stored in an `int16_t`; the source stores none below -65536.
abbrev pub int16_bits : ℤ → ℕ
int16_bits z = (pos_part z + 65536 - neg_part z) % 65536

-- The `unsigned int` that an `int` converts to.
abbrev pub to_unsigned : ℤ → ℕ
to_unsigned z = (pos_part z + ulong_mod - neg_part z) % ulong_mod

-- Bit k of a start time.
abbrev pub start_bit : ℕ → ℕ → Bool
start_bit t k = (t / k) % 2 == 1

unfoldable pub starttime_decode : ℕ → ℕ → ℕ → ℤ
unfolding ◌+ℤ◌
starttime_decode sunrise_time sunset_time t =
    let low = t % 2048 in
    let offset = if start_bit t 4096 then sub_ℕ 0 low else pos low in
    let rise = int16_of (int16_bits (pos sunrise_time +ℤ offset)) in
    let set = int16_of (int16_bits (pos sunset_time +ℤ offset)) in
    if start_bit t 32768
    then negsuc 0
    else if start_bit t 16384
    then (if ltb_ℤ rise (pos 0) then pos 0 else rise)
    else if start_bit t 8192
    then (if ltb_ℤ set (pos 1440) then set else pos 1439)
    else int16_of t

-- The division of unsigned numbers, and its remainder: nothing where the processor faults.
unfoldable pub divided_by : ℕ → ℕ → Option ℕ
divided_by n d = if d == 0 then none else some (n / d)

unfoldable pub remainder_by : ℕ → ℕ → Option ℕ
remainder_by n d = if d == 0 then none else some (n % d)

-- `(c * interval == d) && c <= repeat` for `c = (int16_t)(d / interval)` and an unsigned `d`; the
-- interval is called `every`.
unfoldable pub on_interval : ℕ → ℤ → ℤ → Option Bool
on_interval d every repeat = elim (divided_by d (to_unsigned every)) [
  | none ↦ none
  | some n ↦
      let c = int16_of (n % 65536) in
      some ((((to_unsigned c * to_unsigned every) % ulong_mod) == d) && not (ltb_ℤ repeat c))
]

unfoldable pub oddeven_ok : OddEven → ℕ → ℕ → Bool
oddeven_ok unrestricted dt month = true
oddeven_ok even dt month = dt % 2 == 0
oddeven_ok odd dt month =
    if dt == 31 then false else if (dt == 29) && (month == 2) then false else dt % 2 == 1
oddeven_ok not_available dt month = true

-- The `switch` on the type.
unfoldable pub type_ok : ProgramType → ℕ → ℕ → ℕ → ℕ → ℕ → Option Bool
type_ok weekly days0 days1 t wd dt = some (bit_test days0 wd)
type_ok biweekly days0 days1 t wd dt = some true
type_ok monthly days0 days1 t wd dt = some (dt == days0 % 32)
type_ok interval days0 days1 t wd dt = elim (remainder_by (t / secs_per_day) days1) [
  | none ↦ none
  | some day ↦ some (day == days0)
]

-- `weekday_t = (tm_wday + 1) % 7` and `wd = (weekday_t + 5) % 7`
abbrev pub monday_first : ℕ → ℕ
monday_first wday = ((wday + 1) % 7 + 5) % 7

unfoldable pub check_day_match : (ℕ → Tm) → ProgramStruct → ℕ → Option Bool
check_day_match gmtime p t =
    let ti = gmtime t in
    elim (type_ok p.type p.days0 p.days1 t (monday_first ti.wday) ti.mday) [
      | none ↦ none
      | some ok ↦ some (if ok then oddeven_ok p.oddeven ti.mday (ti.mon + 1) else false)
    ]

-- The loop over the fixed start times, at index `max_num_starttimes - left`.
unfoldable pub any_start : (ℕ → ℕ) → (ℕ → ℤ) → ℕ → ℕ → Bool
any_start starttimes decode minute zero = false
any_start starttimes decode minute (suc i) =
    any_start starttimes decode minute i || (minute == to_unsigned (decode (starttimes i)))

abbrev pub minute_of : ℕ → ℕ
minute_of t = (t % secs_per_day) / 60

-- `t - 86400L`
abbrev pub day_before : ℕ → ℕ
day_before t = (t + ulong_mod - secs_per_day) % ulong_mod

-- `current_minute - start` as an `unsigned int`
abbrev pub since : ℕ → ℤ → ℕ
since minute start = (minute + ulong_mod - to_unsigned start) % ulong_mod

-- The repeating type on a day that matches.
unfoldable pub starts_today : ℕ → ℤ → ℤ → ℤ → Option Bool
starts_today minute start repeat every =
    if minute == to_unsigned start
    then some true
    else if ltb (to_unsigned start) minute && not (to_unsigned every == 0)
    then on_interval (since minute start) every repeat
    else some false

-- The last part: a repeating program that started on the day before and ran over night.
unfoldable pub over_night : (ℕ → Tm) → ProgramStruct → ℕ → ℤ → Option Bool
over_night gmtime p t start =
    let repeat = int16_of (p.starttimes 1) in
    let every = int16_of (p.starttimes 2) in
    if p.starttime_type || (to_unsigned every == 0)
    then some false
    else elim (check_day_match gmtime p (day_before t)) [
      | none ↦ none
      | some false ↦ some false
      | some true ↦ on_interval ((since (minute_of t) start + 1440) % ulong_mod) every repeat
    ]

unfoldable pub check_match : (ℕ → Tm) → ℕ → ℕ → ProgramStruct → ℕ → Option Bool
check_match gmtime sunrise_time sunset_time p t =
    let decode = starttime_decode sunrise_time sunset_time in
    let start = decode (p.starttimes 0) in
    let later = over_night gmtime p t start in
    if not p.enabled then some false else elim (check_day_match gmtime p t) [
      | none ↦ none
      | some false ↦ later
      | some true ↦
          if p.starttime_type
          then some (any_start p.starttimes decode (minute_of t) max_num_starttimes)
          else elim (starts_today (minute_of t) start (int16_of (p.starttimes 1))
              (int16_of (p.starttimes 2))) [
                | none ↦ none
                | some true ↦ some true
                | some false ↦ later
              ]
    ]

-- `days[0]` of an interval program, relative to the day number `today`, and back.
unfoldable pub drem_to_relative : ℕ → ℕ → ℕ → ℕ
drem_to_relative now_tz rem_abs inv = ((rem_abs + inv - (now_tz / secs_per_day) % inv) % inv) % 256

unfoldable pub drem_to_absolute : ℕ → ℕ → ℕ → ℕ
drem_to_absolute now_tz rem_rel inv = ((now_tz / secs_per_day + rem_rel) % inv) % 256
