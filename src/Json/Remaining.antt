-- ===== src/Json/Remaining.antt =====
-- The seconds left that the page of the controller shows (`server_json_controller_main` of
-- firmware/server.cpp).
use indigo_open_sprinkler_pl.Common.{ℕ, ◌+◌, ◌-◌, ◌≤◌, ◌<◌, ◌≡◌, arith}
use indigo_open_sprinkler_pl.WaterTime.{ulong_mod}
use indigo_open_sprinkler_pl.Runtime.{Element}
use indigo_open_sprinkler_pl.Json.Pages.{remaining}

-- The seconds that are shown for a queue element never need more than 16 bits. They are the whole
-- water time before the start, the time until the end while it runs, and 0 when it is over (by less
-- than 2 ^ 32 - 65535 seconds).
pub remaining_lem :
    (curr_time : ℕ) (q : Element)
    → curr_time < ulong_mod
    → q.dur < 65536
    → q.st + q.dur < ulong_mod
    → (remaining curr_time q < 65536)
      × (curr_time < q.st → remaining curr_time q ≡ q.dur)
      × (q.st ≤ curr_time
          → curr_time ≤ q.st + q.dur
          → remaining curr_time q ≡ q.st + q.dur - curr_time)
      × (q.st + q.dur < curr_time
          → curr_time + 65536 ≤ q.st + q.dur + ulong_mod
          → remaining curr_time q ≡ 0)
unfolding remaining
remaining_lem curr_time q h k l =
    (ground arith, λ a. ground arith, λ a b. ground arith, λ a b. ground arith)
