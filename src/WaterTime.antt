-- ===== src/WaterTime.antt =====
-- The water times of firmware/utils.cpp: the special durations, and the signed byte of the options
-- (station delay, master on and off adjustments). `ulong` has 32 bits.
pub mod Laws
mod Tests
use indigo_open_sprinkler_pl.Common.{ℕ, ◌+◌, ◌-◌, ◌*◌, ◌/◌, ◌%◌, ◌^◌, ltb, ◌==◌, if◌then◌else◌}
use indigo_open_sprinkler_pl.Common.Int.{ℤ, pos, negsuc, pos_part, ◌+ℤ◌, ltb_ℤ, sub_ℕ}

abbrev pub ulong_mod : ℕ
ulong_mod = 4294967296

abbrev pub sunrise_to_sunset : ℕ
sunrise_to_sunset = 65534

abbrev pub sunset_to_sunrise : ℕ
sunset_to_sunrise = 65535

-- The difference of the two `uint16_t` may be negative before it is converted to `ulong`.
unfoldable pub water_time_resolve : ℕ → ℕ → ℕ → ℕ
water_time_resolve sunrise_time sunset_time v =
    if v == sunrise_to_sunset
    then ((sunset_time + ulong_mod - sunrise_time) * 60) % ulong_mod
    else if v == sunset_to_sunrise
    then ((sunrise_time + 1440 + ulong_mod - sunset_time) * 60) % ulong_mod
    else v

-- The sum `i + 600` is not negative once `i` is clamped.
unfoldable pub water_time_encode_signed : ℤ → ℕ
unfolding ◌+ℤ◌
water_time_encode_signed i =
    let high = if ltb_ℤ (pos 600) i then pos 600 else i in
    let low = if ltb_ℤ high (negsuc 599) then negsuc 599 else high in pos_part (low +ℤ pos 600) / 5

-- `((int16_t)i - 120) * 5`
unfoldable pub water_time_decode_signed : ℕ → ℤ
water_time_decode_signed i = let j = if ltb 240 i then 240 else i in sub_ℕ (j * 5) 600

-- `t + d` for an `ulong` and an `int16_t`
unfoldable pub ulong_add : ℕ → ℤ → ℕ
ulong_add t (pos d) = (t + d) % ulong_mod
ulong_add t (negsuc d) = (t + ulong_mod - (d + 1)) % ulong_mod
