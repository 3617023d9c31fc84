-- ===== src/WaterTime/Tests.antt =====
-- Instances and runs of the water times.
use indigo_open_sprinkler_pl.Common.{◌≡◌, refl}
use indigo_open_sprinkler_pl.Common.Int.{pos, negsuc, ◌+ℤ◌}
use indigo_open_sprinkler_pl.WaterTime.{
  water_time_resolve, water_time_encode_signed, water_time_decode_signed,
}

runs :
    (water_time_encode_signed (pos 7) ≡ 121)
    × (water_time_encode_signed (negsuc 999) ≡ 0)
    × (water_time_decode_signed 0 ≡ negsuc 599)
    × (water_time_resolve 400 1100 65534 ≡ 42000)
unfolding water_time_encode_signed water_time_decode_signed water_time_resolve ◌+ℤ◌
runs = (refl, refl, refl, refl)
