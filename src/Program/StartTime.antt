-- ===== src/Program/StartTime.antt =====
-- Decoded start times.
use indigo_open_sprinkler_pl.Common.{ℕ, ◌+◌, ◌-◌, ◌≤◌, ◌<◌, ◌≡◌, arith, min}
use indigo_open_sprinkler_pl.Common.Int.{pos, ◌≤ℤ◌, ◌+ℤ◌}
use indigo_open_sprinkler_pl.Program.{starttime_decode}

-- A plain start time (bits 11 to 15 clear) is itself.
pub decode_plain : (rise set t : ℕ) → t < 2048 → starttime_decode rise set t ≡ pos t
unfolding starttime_decode
decode_plain rise set t h = ground arith

-- A sunrise start time is the time of sunrise plus or minus the offset, and never before midnight.
pub decode_sunrise :
    (rise set k : ℕ)
    → rise ≤ 1440
    → k < 2048
    → (starttime_decode rise set (16384 + k) ≡ pos (rise + k))
      × (starttime_decode rise set (16384 + 4096 + k) ≡ pos (rise - k))
unfolding starttime_decode ◌+ℤ◌
decode_sunrise rise set k h hk = (ground arith, ground arith)

-- A sunset start time is the time of sunset plus or minus the offset, and never past the last minute
-- of the day; it may fall before midnight, where it is negative and matches no minute of the day.
pub decode_sunset :
    (rise set k : ℕ)
    → set ≤ 1440
    → k < 2048
    → (starttime_decode rise set (8192 + k) ≡ pos (min (set + k) 1439))
      × (starttime_decode rise set (8192 + 4096 + k) ≤ℤ pos 1439)
unfolding starttime_decode ◌+ℤ◌
decode_sunset rise set k h hk = (ground arith, ground arith)
