-- ===== src/System/Second.antt =====
-- One second of the main loop keeps the state safe (`do_loop` of firmware/main.cpp).
use indigo_open_sprinkler_pl.Common.{
  inl, inr, ℕ, zero, suc, ◌+◌, ◌*◌, ◌-◌, ◌<◌, ◌≡◌, refl, sym, ◌∙◌, subst, arith, Bool, true, false,
  not, if◌then◌else◌, ◌==◌, bit_test, some, Option, Option-cases, replay_inv, update,
}
use indigo_open_sprinkler_pl.Common.Int.{pos}
use indigo_open_sprinkler_pl.Runtime.{Runtime, dequeue, reset_runtime}
use indigo_open_sprinkler_pl.Runtime.Bounds.{
  IsBounded, dequeue-IsBounded, reset_runtime-IsBounded, retimed-IsBounded,
}
use indigo_open_sprinkler_pl.Program.{Tm}
use indigo_open_sprinkler_pl.Controller.{Controller, flowsensor, log_flowsense}
use indigo_open_sprinkler_pl.Controller.OptionIndex.{option_sensor_type}
use indigo_open_sprinkler_pl.Controller.Settings.{sensor_type_flow}
use indigo_open_sprinkler_pl.Controller.Stations.{clear_all_station_bits, apply_all_station_bits}
use indigo_open_sprinkler_pl.Scheduler.{process_dynamic_events, is_master}
use indigo_open_sprinkler_pl.MainLoop.{
  load_masters, check_rain_delay, log_rain_delay, check_rain_sensor, check_program_switch, assign,
  assign_all, turn_on, keep_time, keep_board, keep_all, clean_up, is_over, go_idle, run_programs,
  last_stop, handle_master, handle_masters, do_second, schedule_programs,
}
use indigo_open_sprinkler_pl.System.{IsSafe}
use indigo_open_sprinkler_pl.System.Kept.{
  Unchanged-IsSafe, requeue-IsSafe, push_message-Unchanged, write_log-Unchanged,
  set_station_bit-IsSafe, clear_all_station_bits-IsSafe, apply_all_station_bits-Unchanged,
}
use indigo_open_sprinkler_pl.System.Sensors.{
  load_masters-Unchanged, check_rain_delay-Unchanged, log_rain_delay-Unchanged,
  check_rain_sensor-Unchanged, check_program_switch-IsSafe,
}
use indigo_open_sprinkler_pl.System.Starting.{none-some, some-inj, schedule_programs-IsSafe}
use indigo_open_sprinkler_pl.System.Queueing.{
  turn_off_station-IsSafe, if-IsSafe, process_dynamic_events-IsSafe,
}

assign-IsBounded : (i : ℕ) (r : Runtime) → i < r.nqueue → IsBounded r → IsBounded (assign i r)
unfolding assign update
assign-IsBounded i r lt h = record {
  bounded = ground (arith, h.bounded);
  indices = λ s k. ground (arith, h.indices s k, h.bounded);
  stations = λ j k. ground (arith, h.stations j);
}

assign-nqueue : (i : ℕ) (r : Runtime) → (assign i r).nqueue ≡ r.nqueue
unfolding assign
assign-nqueue i r = ground arith

pub assign_all-IsBounded : (r : Runtime) → IsBounded r → IsBounded (assign_all r)
unfolding assign_all
assign_all-IsBounded r h =
    (replay_inv (λ s. IsBounded s × (s.nqueue ≡ r.nqueue)) r.nqueue assign r
      (λ i lt s k. (assign-IsBounded i s (omega (arith, k.1)) k.0, assign-nqueue i s ∙ k.1))
      (h, refl)).0

pub clean_up-IsBounded : (t n : ℕ) (r : Runtime) → IsBounded r → IsBounded (clean_up t n r)
unfolding clean_up
clean_up-IsBounded t zero r h = h
clean_up-IsBounded t (suc n) r h = clean_up-IsBounded t n _ (split (is_over t (r.queue n)))
  where
    split : (b : Bool) → IsBounded (if b then dequeue n r else r)
    split true = dequeue-IsBounded n r h
    split false = h

turn_on-IsSafe :
    (t qid : ℕ) (was_on : Bool) (sid : ℕ) (c : Controller)
    → IsSafe c
    → IsSafe (turn_on t qid was_on sid c)
unfolding turn_on
turn_on-IsSafe t qid was_on sid c h =
    if-IsSafe was_on h (if-IsSafe _ (set_station_bit-IsSafe sid true c h) h)

keep_time-IsSafe : (t bits sid : ℕ) (c : Controller) → IsSafe c → IsSafe (keep_time t bits sid c)
unfolding keep_time
keep_time-IsSafe t bits sid c h = if-IsSafe (is_master c sid) h (
    if-IsSafe (c.runtime.station_qid sid == 255) h (
      turn_on-IsSafe t _ (bit_test bits sid) sid _
        (if-IsSafe _ (turn_off_station-IsSafe sid t c h) h)))

pub keep_all-IsSafe : (t : ℕ) (c : Controller) → IsSafe c → IsSafe (keep_all t c)
unfolding keep_all keep_board
keep_all-IsSafe t c h =
    replay_inv IsSafe c.nboards (keep_board t) c
      (λ bid lt d k.
        replay_inv IsSafe 8 _ d (λ s m e. keep_time-IsSafe t (d.station_bits bid) (bid * 8 + s) e)
          k)
      h

go_idle-IsSafe : (t : ℕ) (c : Controller) → IsSafe c → IsSafe (go_idle t c)
unfolding go_idle
go_idle-IsSafe t c h = Unchanged-IsSafe (load_masters-Unchanged _) (
    if-IsSafe (idle.options option_sensor_type == sensor_type_flow)
      (Unchanged-IsSafe (push_message-Unchanged flowsensor _ (pos 0) _)
        (Unchanged-IsSafe (write_log-Unchanged log_flowsense t idle) idle-IsSafe))
      idle-IsSafe)
  where
    off : Controller
    off = apply_all_station_bits (clear_all_station_bits c)

    off-IsSafe : IsSafe off
    off-IsSafe =
        Unchanged-IsSafe (apply_all_station_bits-Unchanged _) (clear_all_station_bits-IsSafe c h)

    idle : Controller
    idle = record off {
      runtime = reset_runtime off.runtime;
      status = record (off.status) { program_busy = false };
    }

    idle-IsSafe : IsSafe idle
    idle-IsSafe = record {
      runtime_bounded = reset_runtime-IsBounded off.runtime;
      bytes = off-IsSafe.bytes;
      options_in_range = off-IsSafe.options_in_range;
      boards = off-IsSafe.boards;
      stations = off-IsSafe.stations;
      programs_bounded = off-IsSafe.programs_bounded;
    }

pub run_programs-IsSafe : (t : ℕ) (c : Controller) → IsSafe c → IsSafe (run_programs t c)
unfolding run_programs
run_programs-IsSafe t c h =
    if-IsSafe (not c.status.program_busy) h
      (if-IsSafe (timed.runtime.nqueue == 0) (go_idle-IsSafe t timed timed-IsSafe) timed-IsSafe)
  where
    assigned : Controller
    assigned = record c { runtime = assign_all c.runtime }

    kept : Controller
    kept = keep_all t assigned

    kept-IsSafe : IsSafe kept
    kept-IsSafe =
        keep_all-IsSafe t assigned
          (requeue-IsSafe c _ (assign_all-IsBounded c.runtime h.runtime_bounded) h)

    cleaned : Controller
    cleaned = record kept { runtime = clean_up t kept.runtime.nqueue kept.runtime }

    cleaned-IsSafe : IsSafe cleaned
    cleaned-IsSafe =
        requeue-IsSafe kept _ (clean_up-IsBounded t _ kept.runtime kept-IsSafe.runtime_bounded)
          kept-IsSafe

    stopped : Controller
    stopped = apply_all_station_bits (process_dynamic_events t cleaned)

    stopped-IsSafe : IsSafe stopped
    stopped-IsSafe =
        Unchanged-IsSafe (apply_all_station_bits-Unchanged _)
          (process_dynamic_events-IsSafe t cleaned cleaned-IsSafe)

    timed : Controller
    timed = record stopped {
      runtime = record (stopped.runtime) {
        last_seq_stop_time = last_stop t stopped stopped.runtime.nqueue;
      };
    }

    timed-IsSafe : IsSafe timed
    timed-IsSafe =
        requeue-IsSafe stopped _
          (retimed-IsBounded stopped.runtime _ stopped-IsSafe.runtime_bounded refl refl (λ i. refl))
          stopped-IsSafe

pub handle_master-IsSafe :
    (t mas : ℕ) (op : ℕ → ℕ) (on off : ℕ) (c : Controller)
    → IsSafe c
    → IsSafe (handle_master t mas op on off c)
unfolding handle_master
handle_master-IsSafe t mas op on off c h =
    if-IsSafe (mas == 0) h (set_station_bit-IsSafe (mas - 1) _ c h)

pub handle_masters-IsSafe : (t : ℕ) (c : Controller) → IsSafe c → IsSafe (handle_masters t c)
unfolding handle_masters
handle_masters-IsSafe t c h = handle_master-IsSafe t _ _ _ _ _ (handle_master-IsSafe t _ _ _ _ c h)

-- A second that comes to its end leaves the state safe.
pub do_second-IsSafe :
    (gmtime : ℕ → Tm) (pin : ℕ) (minute : Bool) (t : ℕ) (c d : Controller)
    → do_second gmtime pin minute t c ≡ some d
    → IsSafe c
    → IsSafe d
unfolding do_second
do_second-IsSafe gmtime pin minute t c d e h = elim (Option-cases begun) [
  | inl x ↦ absurd (none-some (sym (rw (do_second, x) refl) ∙ e))
  | inr (s, x) ↦
      let y : some (finish s) ≡ some d = sym (rw (do_second, x) refl) ∙ e in
      subst IsSafe (some-inj y) (finish-IsSafe s (begun-IsSafe minute s x))
]
  where
    rain : Controller
    rain = log_rain_delay t (check_rain_delay t (load_masters c))

    switched : Controller
    switched = check_program_switch pin t (check_rain_sensor pin t rain)

    switched-IsSafe : IsSafe switched
    switched-IsSafe = check_program_switch-IsSafe pin t _ (
        Unchanged-IsSafe (check_rain_sensor-Unchanged pin t rain) (
          Unchanged-IsSafe (log_rain_delay-Unchanged t _) (
            Unchanged-IsSafe (check_rain_delay-Unchanged t _)
              (Unchanged-IsSafe (load_masters-Unchanged c) h))))

    begun : Option Controller
    begun = if minute then schedule_programs gmtime t switched else some switched

    begun-IsSafe :
        (b : Bool) (s : Controller)
        → (if b then schedule_programs gmtime t switched else some switched) ≡ some s
        → IsSafe s
    begun-IsSafe true s x = schedule_programs-IsSafe gmtime t switched s switched-IsSafe x
    begun-IsSafe false s x = subst IsSafe (some-inj x) switched-IsSafe

    finish : Controller → Controller
    finish s =
        apply_all_station_bits (process_dynamic_events t (handle_masters t (run_programs t s)))

    finish-IsSafe : (s : Controller) → IsSafe s → IsSafe (finish s)
    finish-IsSafe s k =
        Unchanged-IsSafe (apply_all_station_bits-Unchanged _) (
          process_dynamic_events-IsSafe t _ (handle_masters-IsSafe t _ (run_programs-IsSafe t s k)))
