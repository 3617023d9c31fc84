-- ===== src/Scheduler/Tests.antt =====
-- Instances of the scheduler's laws.
use mathlib.Core.List.{Perm}
use indigo_open_sprinkler_pl.Common.{
  ℕ, ◌++◌, ◌≢◌, ◌+◌, ◌≤◌, ◌<◌, ◌≡◌, refl, arith, true, false, if◌then◌else◌, ◌==◌, ◌∷◌, bit_test,
  map, none,
}
use indigo_open_sprinkler_pl.WaterTime.{water_time_decode_signed}
use indigo_open_sprinkler_pl.Runtime.{queued, unlinked}
use indigo_open_sprinkler_pl.Runtime.Links.{current}
use indigo_open_sprinkler_pl.Runtime.Removal.{key}
use indigo_open_sprinkler_pl.Controller.{Controller}
use indigo_open_sprinkler_pl.Controller.Sample.{
  sample, sample-AreBytes, busy_queue, busy_queue-IsConsistent,
}
use indigo_open_sprinkler_pl.Controller.Stations.{station_on}
use indigo_open_sprinkler_pl.Scheduler.{
  schedule_all_stations, turn_off_station, is_raining, process_dynamic_events, manual_start_program,
}
use indigo_open_sprinkler_pl.Scheduler.Placement.{IsNew}
use indigo_open_sprinkler_pl.Scheduler.Starts.{
  scheduled, sequential_order, concurrent_order, schedule_all_stations_lem,
}
use indigo_open_sprinkler_pl.Scheduler.Stopping.{turn_off_station_lem}
use indigo_open_sprinkler_pl.Scheduler.Events.{
  IsSound, is_stopped, removed, process_dynamic_events_lem,
}
use indigo_open_sprinkler_pl.Scheduler.Manual.{manual_start_program-queued, planned}

-- The same controller without sequential stations.
abbrev parallel : Controller
parallel = record sample { attributes = record (sample.attributes) { stnseq = λ b. 0 } }

computes : ℕ
unfolding water_time_decode_signed bit_test
computes = 0

sequential_order_example :
    ((scheduled 1000 sample 1).st + 60 + 0 ≤ (scheduled 1000 sample 2).st)
    × (1000 < (scheduled 1000 sample 1).st)
    × (1500 ≤ (scheduled 1000 sample 1).st)
unfolding computes
sequential_order_example =
    sequential_order 1000 sample 0 refl (omega arith) 1 2 (omega arith) (omega arith)
      (refl, λ e. absurd (omega arith)) (refl, λ e. absurd (omega arith)) refl refl

concurrent_order_example :
    (1000 < (scheduled 1000 parallel 1).st)
    × ((scheduled 1000 parallel 1).st < (scheduled 1000 parallel 2).st)
    × ((scheduled 1000 parallel 2).st ≤ 1000 + 1 + 3)
unfolding computes
concurrent_order_example =
    concurrent_order 1000 parallel 0 refl (omega arith) 1 2 (omega arith) (omega arith)
      (refl, λ e. absurd (omega arith)) (refl, λ e. absurd (omega arith)) refl refl

schedule_all_stations_lem_example :
    let r = (schedule_all_stations 1000 sample).runtime in
    (1 < 3 → IsNew (busy_queue.queue 1) → 1000 < (r.queue 1).st)
    × (¬ IsNew (busy_queue.queue 1) → r.queue 1 ≡ busy_queue.queue 1)
    × (3 ≤ 1 → r.queue 1 ≡ busy_queue.queue 1)
    × ((r.queue 1).dur ≡ 60)
    × ((r.queue 1).sid ≡ 2)
    × ((r.queue 1).pid ≡ 1)
    × (r.nqueue ≡ 3)
    × (r.station_qid ≡ busy_queue.station_qid)
    × (r.last_seq_stop_time ≡ 1500)
unfolding computes
schedule_all_stations_lem_example = schedule_all_stations_lem 1000 0 1 sample refl (omega arith)

turn_off_station_lem_example :
    ((j : ℕ)
      → station_on (turn_off_station 4 1000 sample) j
        ≡ (if j == 4 then false else station_on sample j))
    × ((turn_off_station 4 1000 sample).runtime.station_qid 4 ≡ unlinked)
    × (0 ≢ unlinked
        → Perm
            (queued busy_queue)
            (busy_queue.queue 0 ∷ queued (turn_off_station 4 1000 sample).runtime))
    × (0 ≡ unlinked → (turn_off_station 4 1000 sample).runtime ≡ busy_queue)
turn_off_station_lem_example =
    turn_off_station_lem 4 1000 sample sample-AreBytes (omega arith) busy_queue-IsConsistent

sample-IsSound : IsSound sample
sample-IsSound = record { consistent = busy_queue-IsConsistent; bytes = sample-AreBytes }

process_dynamic_events_lem_example :
    let stops = is_stopped sample 4 in
    IsSound (process_dynamic_events 1000 sample)
    × (current (process_dynamic_events 1000 sample).runtime 4
        ≡ (if stops then none else current busy_queue 4))
    × (station_on (process_dynamic_events 1000 sample) 4
        ≡ (if stops then false else station_on sample 4))
    × Perm (queued busy_queue) (
        removed (is_stopped sample) sample 8 ++ queued (process_dynamic_events 1000 sample).runtime)
process_dynamic_events_lem_example =
    process_dynamic_events_lem 1000 sample 4 sample-IsSound (omega arith) (omega arith)

stops_run : is_stopped sample 4 ≡ true
unfolding is_raining bit_test
stops_run = refl

manual_start_program-queued_example :
    map key (queued (manual_start_program 1 false sample).runtime) ≡ planned 1 false sample 8
manual_start_program-queued_example = manual_start_program-queued 1 false sample (omega arith)
