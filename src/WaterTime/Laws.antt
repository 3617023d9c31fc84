-- ===== src/WaterTime/Laws.antt =====
-- The signed byte and back, and the two special durations.
use indigo_open_sprinkler_pl.Common.{ℕ, ◌+◌, ◌≤◌, ◌<◌, ◌≡◌, min, arith}
use indigo_open_sprinkler_pl.Common.Int.{ℤ, pos, negsuc, ◌+ℤ◌, ◌≤ℤ◌}
use indigo_open_sprinkler_pl.WaterTime.{
  water_time_resolve, water_time_encode_signed, water_time_decode_signed, sunrise_to_sunset,
  sunset_to_sunrise,
}

-- Encoding undoes decoding at every byte, except that the bytes above 240 are read as 240.
pub encode-decode : (b : ℕ) → water_time_encode_signed (water_time_decode_signed b) ≡ min b 240
unfolding water_time_encode_signed water_time_decode_signed
encode-decode b = ground arith

-- Decoding an encoded value from -600 to 600 gives the multiple of 5 next below it (or itself).
pub decode-encode :
    (i : ℤ)
    → negsuc 599 ≤ℤ i
    → i ≤ℤ pos 600
    → (water_time_decode_signed (water_time_encode_signed i) ≤ℤ i)
      × (i ≤ℤ (water_time_decode_signed (water_time_encode_signed i) +ℤ pos 4))
unfolding water_time_encode_signed water_time_decode_signed ◌+ℤ◌
decode-encode i lo hi = ground arith

-- A value of any size encodes to at most 240, so that the byte is never clamped when it is read.
pub encode_bound : (i : ℤ) → water_time_encode_signed i ≤ 240
unfolding water_time_encode_signed ◌+ℤ◌
encode_bound i = ground arith

-- Every byte decodes into the range from -600 to 600.
pub decode_range :
    (b : ℕ) → (negsuc 599 ≤ℤ water_time_decode_signed b) × (water_time_decode_signed b ≤ℤ pos 600)
unfolding water_time_decode_signed
decode_range b = ground arith

-- When the sun rises before it sets, the day and the night durations make up 24 hours, and any
-- other value stands for itself.
pub resolve_day_night :
    (rise set : ℕ)
    → rise ≤ set
    → set ≤ 1440
    → (water_time_resolve rise set sunrise_to_sunset + water_time_resolve rise set sunset_to_sunrise
        ≡ 86400)
      × ((v : ℕ) → v < sunrise_to_sunset → water_time_resolve rise set v ≡ v)
unfolding water_time_resolve
resolve_day_night rise set h k = (ground arith, λ v lt. ground arith)
