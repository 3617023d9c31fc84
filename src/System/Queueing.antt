-- ===== src/System/Queueing.antt =====
-- The scheduler's operations on the queue keep the state safe (firmware/main.cpp).
use indigo_open_sprinkler_pl.Common.{
  ℕ, ◌*◌, ◌≤◌, ◌<◌, refl, inl, inr, arith, Bool, true, false, if◌then◌else◌, leb, ltb, ◌&&◌, ◌-◌,
  replay, Option-cases, replay_inv,
}
use indigo_open_sprinkler_pl.Runtime.{enqueue, release, max_num_stations}
use indigo_open_sprinkler_pl.Runtime.Bounds.{
  IsBounded, enqueue-IsBounded, release-IsBounded, reset_runtime-IsBounded, retimed-IsBounded,
}
use indigo_open_sprinkler_pl.Common.Int.{ℤ, pos}
use indigo_open_sprinkler_pl.Controller.{Controller, push_message, program_sched, now_tz}
use indigo_open_sprinkler_pl.Controller.OptionIndex.{option_water_percentage}
use indigo_open_sprinkler_pl.Controller.Stations.Frame.{Frame}
use indigo_open_sprinkler_pl.Scheduler.{
  add_element, schedule_all_stations, mark_busy, turn_off_station, must_stop,
  process_dynamic_events, is_raining, reset_all_stations, reset_all_stations_immediate,
  manual_station, manual_start_program, manual_water_time,
}
use indigo_open_sprinkler_pl.Scheduler.Starts.{schedule_keeps}
use indigo_open_sprinkler_pl.Scheduler.Stopping.{
  turn_off_station-runtime, turn_off_station-Frame, turn_off_station-bits,
}
use indigo_open_sprinkler_pl.System.{IsSafe}
use indigo_open_sprinkler_pl.System.Kept.{
  TablesSame, requeue-IsSafe, Unchanged-IsSafe, runtime-IsSafe, push_message-Unchanged,
  set_station_bit-IsSafe, clear_all_station_bits-IsSafe, apply_all_station_bits-Unchanged,
}

-- The stations are at most as many as the links.
pub nstations-le : {c : Controller} → IsSafe c → c.nstations ≤ max_num_stations
nstations-le h = omega (arith, h.boards, h.stations)

pub add_element-IsSafe :
    (sid pid dur : ℕ) (c : Controller)
    → sid < max_num_stations
    → IsSafe c
    → IsSafe (add_element sid pid dur c).0
unfolding add_element
add_element-IsSafe sid pid dur c lt h = elim (Option-cases (enqueue c.runtime)) [
  | inl e ↦ rw (add_element, e) h
  | inr ((i, r), e) ↦
      rw (add_element, e)
        (requeue-IsSafe c _ (enqueue-IsBounded c.runtime r i _ h.runtime_bounded lt e) h)
]

schedule_all_stations-TablesSame :
    (t : ℕ) (c : Controller) → TablesSame c (schedule_all_stations t c)
unfolding schedule_all_stations mark_busy
schedule_all_stations-TablesSame t c = ground arith

pub schedule_all_stations-IsSafe :
    (t : ℕ) (c : Controller) → IsSafe c → IsSafe (schedule_all_stations t c)
schedule_all_stations-IsSafe t c h =
    let k = schedule_keeps t c in
    runtime-IsSafe (schedule_all_stations-TablesSame t c)
      (retimed-IsBounded c.runtime _ h.runtime_bounded (k 0).4 (k 0).5 (λ i. (k i).1)) h

pub turn_off_station-IsSafe :
    (sid t : ℕ) (c : Controller) → IsSafe c → IsSafe (turn_off_station sid t c)
turn_off_station-IsSafe sid t c h = record {
  runtime_bounded =
      rw (turn_off_station-runtime sid t c)
        (split (leb c.runtime.nqueue (c.runtime.station_qid sid)));
  bytes = λ b. rw (turn_off_station-bits sid t c) ((set_station_bit-IsSafe sid false c h).bytes b);
  options_in_range = λ oid lt. rw f.options_same (h.options_in_range oid lt);
  boards = rw f.nboards_same h.boards;
  stations = rw (f.nboards_same, f.nstations_same) h.stations;
  programs_bounded = rw f.nprograms_same h.programs_bounded;
}
  where
    f : Frame c (turn_off_station sid t c)
    f = turn_off_station-Frame sid t c

    split : (b : Bool) → IsBounded (if b then c.runtime else release sid c.runtime)
    split true = h.runtime_bounded
    split false = release-IsBounded sid c.runtime h.runtime_bounded

-- A branch of two states that are safe.
pub if-IsSafe : (b : Bool) {c d : Controller} → IsSafe c → IsSafe d → IsSafe (if b then c else d)
if-IsSafe true h k = h
if-IsSafe false h k = k

pub process_dynamic_events-IsSafe :
    (t : ℕ) (c : Controller) → IsSafe c → IsSafe (process_dynamic_events t c)
unfolding process_dynamic_events
process_dynamic_events-IsSafe t c = replay_inv IsSafe (c.nboards * 8) _ c (λ sid lt s h.
    if-IsSafe (must_stop c.status.enabled (is_raining c) sid s) (turn_off_station-IsSafe sid t s h)
      h)

pub reset_all_stations_immediate-IsSafe :
    (c : Controller) → IsSafe c → IsSafe (reset_all_stations_immediate c)
unfolding reset_all_stations_immediate
reset_all_stations_immediate-IsSafe c h =
    requeue-IsSafe _ _ (reset_runtime-IsBounded _)
      (Unchanged-IsSafe (apply_all_station_bits-Unchanged _) (clear_all_station_bits-IsSafe c h))

pub reset_all_stations-IsSafe : (c : Controller) → IsSafe c → IsSafe (reset_all_stations c)
unfolding reset_all_stations
reset_all_stations-IsSafe c h =
    requeue-IsSafe c _
      (retimed-IsBounded c.runtime _ h.runtime_bounded refl refl (λ i. ground arith)) h

-- The state in a pair.
abbrev pub FirstIsSafe : {A : Type 0} → Controller × A → Type 0
FirstIsSafe s = IsSafe s.0

manual_station-IsSafe :
    (pid : ℕ) (uwt : Bool) (sid : ℕ) (s : Controller × Bool)
    → sid < max_num_stations
    → FirstIsSafe s
    → FirstIsSafe (manual_station pid uwt sid s)
unfolding manual_station
manual_station-IsSafe pid uwt sid s lt h =
    ground (arith, add_element-IsSafe sid 254 (manual_water_time pid uwt sid s.0) s.0 lt h)

pub manual_start_program-IsSafe :
    (pid : ℕ) (uwt : Bool) (c : Controller) → IsSafe c → IsSafe (manual_start_program pid uwt c)
unfolding manual_start_program
manual_start_program-IsSafe pid uwt c h = finish queued.1
  where
    reset : Controller
    reset = reset_all_stations_immediate c

    reset-IsSafe : IsSafe reset
    reset-IsSafe = reset_all_stations_immediate-IsSafe c h

    level : ℤ
    level = if uwt then pos (reset.options option_water_percentage) else pos 100

    told : Controller
    told =
        if ltb 0 pid && ltb pid 255 then push_message program_sched (pid - 1) level reset else reset

    told-IsSafe : IsSafe told
    told-IsSafe =
        if-IsSafe (ltb 0 pid && ltb pid 255)
          (Unchanged-IsSafe (push_message-Unchanged program_sched (pid - 1) level reset)
            reset-IsSafe)
          reset-IsSafe

    queued : Controller × Bool
    queued = replay told.nstations (manual_station pid uwt) (told, false)

    queued-IsSafe : IsSafe queued.0
    queued-IsSafe =
        replay_inv FirstIsSafe told.nstations (manual_station pid uwt) (told, false)
          (λ sid lt s.
            manual_station-IsSafe pid uwt sid s (omega (arith, nstations-le told-IsSafe)))
          told-IsSafe

    finish :
        (b : Bool)
        → IsSafe (if b then schedule_all_stations (now_tz queued.0) queued.0 else queued.0)
    finish b = if-IsSafe b (schedule_all_stations-IsSafe _ queued.0 queued-IsSafe) queued-IsSafe
