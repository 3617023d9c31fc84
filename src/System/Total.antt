-- ===== src/System/Total.antt =====
-- A second comes to its end (`do_loop` of firmware/main.cpp), unless the test of a program divides by
-- zero.
use indigo_open_sprinkler_pl.Common.{
  ℕ, zero, suc, ◌<◌, ◌≤◌, ◌≡◌, inl, inr, refl, arith, Bool, true, false, if◌then◌else◌, some,
  Option-cases, replay, replay_inv,
}
use indigo_open_sprinkler_pl.Common.Int.{ℤ, pos}
use indigo_open_sprinkler_pl.Program.{ProgramStruct, Tm, check_match}
use indigo_open_sprinkler_pl.Program.Faults.{IsFaulty, check_match_fault}
use indigo_open_sprinkler_pl.Controller.{Controller, push_message, program_sched}
use indigo_open_sprinkler_pl.Controller.OptionIndex.{option_water_percentage}
use indigo_open_sprinkler_pl.Controller.Stations.{apply_all_station_bits}
use indigo_open_sprinkler_pl.Scheduler.{schedule_all_stations, process_dynamic_events}
use indigo_open_sprinkler_pl.MainLoop.{
  program_station, check_program, check_programs, schedule_programs, do_second, load_masters,
  run_programs, handle_masters, check_rain_delay, log_rain_delay, check_rain_sensor,
  check_program_switch,
}
use indigo_open_sprinkler_pl.System.Slots.{
  Same, Same-refl, Same-trans, Unchanged-Same, if-Same, check_program_switch-Same,
  program_station-Same,
}
use indigo_open_sprinkler_pl.System.Kept.{Unchanged-trans, push_message-Unchanged}
use indigo_open_sprinkler_pl.System.Sensors.{
  load_masters-Unchanged, check_rain_delay-Unchanged, log_rain_delay-Unchanged,
  check_rain_sensor-Unchanged,
}

-- No program of the controller is faulty.
abbrev pub IsFaultless : Controller → Type 0
IsFaultless c = (pid : ℕ) → pid < c.nprograms → ¬ IsFaulty (c.programs pid)

check_match_total :
    (gmtime : ℕ → Tm) (rise set : ℕ) (p : ProgramStruct) (t : ℕ)
    → ¬ IsFaulty p
    → (b : Bool) × (check_match gmtime rise set p t ≡ some b)
check_match_total gmtime rise set p t ok = elim (Option-cases (check_match gmtime rise set p t)) [
  | inl e ↦ absurd (ok ((check_match_fault gmtime rise set p t).0 e))
  | inr r ↦ r
]

Same-IsFaultless : {c d : Controller} → Same c d → IsFaultless c → IsFaultless d
Same-IsFaultless s h pid lt = rw s.programs_same (h pid (omega (arith, lt, s.nprograms_same)))

-- One program that is not faulty is looked at.
check_program_total :
    (gmtime : ℕ → Tm) (t pid : ℕ) (s : Controller × Bool)
    → ¬ IsFaulty (s.0.programs pid)
    → (r : Controller × Bool) × (check_program gmtime t pid s ≡ some r) × Same s.0 r.0
unfolding check_program
check_program_total gmtime t pid s ok =
    let m =
      check_match_total gmtime s.0.nvdata.sunrise_time s.0.nvdata.sunset_time (s.0.programs pid) t
        ok in
    go m.0 m.1
  where
    started : Controller × Bool
    started = replay s.0.nstations (program_station pid (s.0.programs pid)) s

    started-Same : Same s.0 started.0
    started-Same =
        replay_inv (λ x. Same s.0 x.0) s.0.nstations (program_station pid (s.0.programs pid)) s
          (λ sid lt x k. Same-trans k (program_station-Same pid (s.0.programs pid) sid x))
          (Same-refl s.0)

    level : ℤ
    level =
        if (s.0.programs pid).use_weather
        then pos (started.0.options option_water_percentage)
        else pos 100

    told : Controller
    told = if started.1 then push_message program_sched pid level started.0 else started.0

    go :
        (b : Bool)
        → check_match gmtime s.0.nvdata.sunrise_time s.0.nvdata.sunset_time (s.0.programs pid) t
          ≡ some b
        → (r : Controller × Bool) × (check_program gmtime t pid s ≡ some r) × Same s.0 r.0
    go false e = (s, rw (check_program, e), Same-refl s.0)
    go true e = (
      (told, started.1),
      rw (check_program, e),
      if-Same started.1
          (Same-trans started-Same
            (Unchanged-Same (push_message-Unchanged program_sched pid level started.0)))
          started-Same,
    )

check_programs_total :
    (gmtime : ℕ → Tm) (t n : ℕ) (c : Controller)
    → n ≤ c.nprograms
    → IsFaultless c
    → (r : Controller × Bool) × (check_programs gmtime t n c ≡ some r) × Same c r.0
unfolding check_programs
check_programs_total gmtime t zero c le h = ((c, false), refl, Same-refl c)
check_programs_total gmtime t (suc n) c le h =
    let (s, e, same) = check_programs_total gmtime t n c (omega arith) h in
    let fine = Same-IsFaultless same h n (omega (arith, same.nprograms_same)) in
    let (r, f, next) = check_program_total gmtime t n s fine in
    (r, rw (check_programs, e) f, Same-trans same next)

schedule_programs_total :
    (gmtime : ℕ → Tm) (t : ℕ) (c : Controller)
    → IsFaultless c
    → (d : Controller) × (schedule_programs gmtime t c ≡ some d)
unfolding schedule_programs
schedule_programs_total gmtime t c h =
    let (r, e, same) = check_programs_total gmtime t c.nprograms c (omega arith) h in
    (if r.1 then schedule_all_stations t r.0 else r.0, rw (schedule_programs, e))

-- If no program that is enabled and of the interval type has an interval of 0 days, no second is
-- stopped by a division by zero: `do_loop` yields a next state, whatever the sensors read and the
-- calendar says, and whether a minute begins or not.
pub do_second_total :
    (gmtime : ℕ → Tm) (pin : ℕ) (minute : Bool) (t : ℕ) (c : Controller)
    → IsFaultless c
    → (d : Controller) × (do_second gmtime pin minute t c ≡ some d)
unfolding do_second
do_second_total gmtime pin minute t c h = go minute
  where
    sensed : Controller
    sensed = check_rain_sensor pin t (log_rain_delay t (check_rain_delay t (load_masters c)))

    switched : Controller
    switched = check_program_switch pin t sensed

    switched-Same : Same c switched
    switched-Same =
        Same-trans
          (Unchanged-Same (
            Unchanged-trans
              (Unchanged-trans
                (Unchanged-trans (load_masters-Unchanged c) (check_rain_delay-Unchanged t _))
                (log_rain_delay-Unchanged t _))
              (check_rain_sensor-Unchanged pin t _)))
          (check_program_switch-Same pin t sensed)

    go : (b : Bool) → (d : Controller) × (do_second gmtime pin b t c ≡ some d)
    go true =
        let (s, e) = schedule_programs_total gmtime t switched (Same-IsFaultless switched-Same h) in
        (
          apply_all_station_bits (process_dynamic_events t (handle_masters t (run_programs t s))),
          rw (do_second, e),
        )
    go false = (_, refl)
