-- ===== src/System/Tests.antt =====
-- A second, an answer of the weather service and a request, one after the other.
use indigo_open_sprinkler_pl.Common.{
  ℕ, zero, suc, ◌<◌, ◌-◌, ◌≡◌, get_or, true, refl, arith, false, none, some, List, [], ◌∷◌,
}
use indigo_open_sprinkler_pl.Runtime.Bounds.{IsBounded}
use indigo_open_sprinkler_pl.Program.{Tm}
use indigo_open_sprinkler_pl.Controller.{Controller, stop_time}
use indigo_open_sprinkler_pl.Controller.OptionIndex.{op_max}
use indigo_open_sprinkler_pl.Controller.Sample.{sample, sample-AreBytes, busy_queue}
use indigo_open_sprinkler_pl.Controller.Stations.{apply_all_station_bits}
use indigo_open_sprinkler_pl.Scheduler.{process_dynamic_events}
use indigo_open_sprinkler_pl.MainLoop.{
  load_masters, check_rain_delay, log_rain_delay, check_rain_sensor, check_program_switch,
  run_programs, handle_masters, do_second,
}
use indigo_open_sprinkler_pl.Server.Bounds.{AreInRange}
use indigo_open_sprinkler_pl.Server.Dispatch.{handle_web_request}
use indigo_open_sprinkler_pl.Weather.{periodic}
use indigo_open_sprinkler_pl.System.{IsSafe, Reach, start, later, request, second, weather, tick}
use indigo_open_sprinkler_pl.System.Idle.{AllOver}
use indigo_open_sprinkler_pl.System.Quiet.{do_second-idle}
use indigo_open_sprinkler_pl.System.Total.{IsFaultless, do_second_total}
use indigo_open_sprinkler_pl.System.Safety.{Reach-IsSafe}

busy_queue-IsBounded : IsBounded busy_queue
busy_queue-IsBounded = record {
  bounded = omega arith;
  indices = λ s lt. ground arith;
  stations = λ i lt. ground arith;
}

sample-options : AreInRange sample.options
unfolding op_max
sample-options oid lt ranged = ground arith

sample-IsSafe : IsSafe sample
sample-IsSafe = record {
  runtime_bounded = busy_queue-IsBounded;
  bytes = sample-AreBytes;
  options_in_range = sample-options;
  boards = omega arith;
  stations = refl;
  programs_bounded = omega arith;
}

-- "pw=os&sid=5&en=1&t=90&"
abbrev test_five : List ℕ
test_five =
    112 ∷ 119 ∷ 61 ∷ 111 ∷ 115 ∷ 38 ∷ 115 ∷ 105 ∷ 100 ∷ 61 ∷ 53 ∷ 38 ∷ 101 ∷ 110 ∷ 61 ∷ 49 ∷ 38
    ∷ 116 ∷ 61 ∷ 57 ∷ 48 ∷ 38 ∷ []

abbrev midnight : ℕ → Tm
midnight t = record { wday = 0; mday = 1; mon = 0 }

-- The state after second 1000.
abbrev after_second : Controller
after_second =
    let rain = log_rain_delay 1000 (check_rain_delay 1000 (load_masters sample)) in
    let switched = check_program_switch 1 1000 (check_rain_sensor 1 1000 rain) in
    apply_all_station_bits
      (process_dynamic_events 1000 (handle_masters 1000 (run_programs 1000 switched)))

after_second-Reach : Reach sample after_second
unfolding do_second
after_second-Reach = later start (second midnight 1 false 1000 refl)

-- And after the request, at second 1001.
abbrev after_request : Controller
after_request =
    (handle_web_request 99 109 test_five
      (record (periodic 1000 none after_second) { clock = 1001 })).0

after_request-Reach : Reach sample after_request
after_request-Reach =
    later (later (later after_second-Reach (weather 1000 none)) (tick 1001))
      (request 99 109 test_five)

Reach-IsSafe_example : IsSafe after_request
Reach-IsSafe_example = Reach-IsSafe after_request-Reach sample-IsSafe

over_at_2000 : AllOver 2000 busy_queue
unfolding stop_time
over_at_2000 zero lt = refl
over_at_2000 (suc zero) lt = refl
over_at_2000 (suc (suc zero)) lt = refl
over_at_2000 (suc (suc (suc i))) lt = absurd (omega arith)

do_second-idle_example :
    (d : Controller) × (do_second midnight 1 false 2000 sample ≡ some d)
    × (d.runtime.nqueue ≡ 0)
    × (d.status.program_busy ≡ false)
    × ((sid : ℕ) → sid < 56 → get_or d.valves (56 - 1 - sid) false ≡ false)
do_second-idle_example =
    do_second-idle midnight 1 2000 sample sample-IsSafe refl (λ e. absurd (omega arith))
      over_at_2000

sample-IsFaultless : IsFaultless sample
sample-IsFaultless pid lt e = cc (e.1)

do_second_total_example : (d : Controller) × (do_second midnight 1 true 1440 sample ≡ some d)
do_second_total_example = do_second_total midnight 1 true 1440 sample sample-IsFaultless
