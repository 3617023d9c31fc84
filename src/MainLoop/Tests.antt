-- ===== src/MainLoop/Tests.antt =====
-- Instances of the main loop's laws.
use indigo_open_sprinkler_pl.Common.{
  ℕ, Option, none, some, ◌/◌, ◌%◌, ◌+◌, ◌≤◌, ◌<◌, ◌≡◌, ◌≢◌, ◌↔◌, refl, arith, true, false, ◌==◌,
  if◌then◌else◌, [], ◌∷◌, bit_test,
}
use indigo_open_sprinkler_pl.WaterTime.{ulong_add, water_time_decode_signed}
use indigo_open_sprinkler_pl.Controller.{Controller, stop_time, value_record, log_raindelay}
use indigo_open_sprinkler_pl.Controller.Sample.{sample, sample-AreBytes, busy_queue}
use indigo_open_sprinkler_pl.Controller.Stations.{station_on}
use mathlib.Core.List.{Perm}
use indigo_open_sprinkler_pl.Runtime.{queued, unlinked}
use indigo_open_sprinkler_pl.Runtime.Links.{IsConsistent}
use indigo_open_sprinkler_pl.Controller.Sample.{busy_queue-IsConsistent}
use indigo_open_sprinkler_pl.MainLoop.{
  handle_master, schedule_programs, check_programs, check_program, assign_all, clean_up, is_over,
  keep_time,
}
use indigo_open_sprinkler_pl.MainLoop.Assign.{assign_all_lem, IsServed}
use indigo_open_sprinkler_pl.MainLoop.Cleanup.{clean_up_lem, still_live}
use indigo_open_sprinkler_pl.MainLoop.Rain.{look, rain_delay_logged}
use indigo_open_sprinkler_pl.MainLoop.Keeping.{keep_time_lem}
use indigo_open_sprinkler_pl.MainLoop.Starting.{schedule_programs-IsConsistent}
use indigo_open_sprinkler_pl.Program.{
  Tm, check_match, starttime_decode, check_day_match, oddeven_ok, type_ok, starts_today,
}
use indigo_open_sprinkler_pl.MainLoop.Master.{handle_master_lem}

-- A delay until second 4600 is set.
abbrev dry : Controller
dry = record sample {
  nvdata = record (sample.nvdata) { rd_stop_time = 4600 };
  status = record (sample.status) { rain_delayed = false };
}

rain_delay_logged_example :
    let on = look 1000 dry in
    let over = look 4600 on in
    (on.status.rain_delayed ≡ true)
    × (on.log ≡ [])
    × (look 2000 on ≡ on)
    × (over.status.rain_delayed ≡ false)
    × (over.log ≡ value_record 0 log_raindelay 0 3600 4600 ∷ [])
    × (look 4601 over ≡ over)
rain_delay_logged_example =
    rain_delay_logged 1000 2000 4600 4601 dry refl refl (omega arith) (omega arith) (omega arith)

handle_master_lem_example :
    let c' = handle_master 1000 1 (λ b. 255) 120 120 sample in
    let q = λ (sid : ℕ). busy_queue.queue (busy_queue.station_qid sid) in
    ((station_on c' 0 ≡ true) ↔ (
      (sid : ℕ) × (sid < 8)
      × (1 ≢ sid + 1)
      × (station_on sample sid ≡ true)
      × (bit_test 255 sid ≡ true)
      × (ulong_add (q sid).st (water_time_decode_signed 120) ≤ 1000)
      × (1000 ≤ ulong_add (stop_time (q sid)) (water_time_decode_signed 120))))
    × ((j : ℕ) → j ≢ 0 → station_on c' j ≡ station_on sample j)
handle_master_lem_example =
    handle_master_lem 1000 1 (λ b. 255) 120 120 sample sample-AreBytes (omega arith)

assign_all_lem_example :
    ((assign_all busy_queue).queue ≡ busy_queue.queue)
    × ((assign_all busy_queue).nqueue ≡ 3)
    × IsConsistent (assign_all busy_queue)
    × ((i : ℕ) → i < 3 → IsServed (assign_all busy_queue) i)
assign_all_lem_example = assign_all_lem busy_queue busy_queue-IsConsistent (λ i lt. ground arith)

-- At second 1600 the element of station 4 has run out (and the others, which start at 0).
clean_up_lem_example :
    let r' = clean_up 1600 3 busy_queue in
    ((i : ℕ) → i < r'.nqueue → is_over 1600 (r'.queue i) ≡ false)
    × Perm (still_live 1600 (queued busy_queue)) (queued r')
clean_up_lem_example = clean_up_lem 1600 busy_queue

keep_time_lem_example :
    let q = busy_queue.queue 0 in
    let c' = keep_time 1000 16 4 sample in
    (1000 < q.st → 1000 < stop_time q → c' ≡ sample)
    × (q.st ≤ 1000
        → 1000 < stop_time q
        → (j : ℕ) → station_on c' j ≡ (if j == 4 then true else station_on sample j))
    × (0 < q.st
        → stop_time q ≤ 1000
        → station_on sample 4 ≡ true
        → ((j : ℕ) → station_on c' j ≡ (if j == 4 then false else station_on sample j))
          × (c'.runtime.station_qid 4 ≡ unlinked)
          × Perm (queued busy_queue) (q ∷ queued c'.runtime))
keep_time_lem_example =
    keep_time_lem 1000 16 4 sample sample-AreBytes busy_queue-IsConsistent (omega arith) refl
      (λ e. absurd (omega arith)) refl

-- A calendar with months of 28 days, all of them Januaries.
abbrev calendar : ℕ → Tm
calendar t = record { wday = (t / 86400 + 4) % 7; mday = (t / 86400) % 28 + 1; mon = 0 }

-- The controller at 22:00, when its program starts.
abbrev evening_start : Option Controller
evening_start = schedule_programs calendar 79200 sample

abbrev state_or : Controller → Option Controller → Controller
state_or c none = c
state_or c (some d) = d

schedule_programs-IsConsistent_example : IsConsistent (state_or sample evening_start).runtime
unfolding schedule_programs check_programs check_program check_match starttime_decode
    check_day_match oddeven_ok type_ok starts_today bit_test
schedule_programs-IsConsistent_example =
    schedule_programs-IsConsistent calendar 79200 sample (state_or sample evening_start)
      busy_queue-IsConsistent refl
