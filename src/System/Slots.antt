-- ===== src/System/Slots.antt =====
-- What leaves the slots of the programs alone (firmware/main.cpp).
use indigo_open_sprinkler_pl.Common.{
  ℕ, ◌+◌, ◌-◌, ◌≡◌, inl, inr, refl, ◌∙◌, arith, Bool, true, false, ◌&&◌, if◌then◌else◌, ltb,
  Option-cases, replay, replay_inv,
}
use indigo_open_sprinkler_pl.Common.Int.{ℤ, pos}
use indigo_open_sprinkler_pl.Runtime.{enqueue}
use indigo_open_sprinkler_pl.Program.{ProgramStruct}
use indigo_open_sprinkler_pl.Controller.{Controller, push_message, program_sched, now_tz}
use indigo_open_sprinkler_pl.Controller.OptionIndex.{option_water_percentage}
use indigo_open_sprinkler_pl.Controller.Settings.{programswitch_status}
use indigo_open_sprinkler_pl.Controller.Stations.Frame.{
  clear_all_station_bits-RunFrame, apply_all_station_bits-RunFrame,
}
use indigo_open_sprinkler_pl.Controller.Stations.{clear_all_station_bits}
use indigo_open_sprinkler_pl.Scheduler.{
  add_element, schedule_all_stations, mark_busy, reset_all_stations_immediate, manual_station,
  manual_start_program, manual_water_time,
}
use indigo_open_sprinkler_pl.MainLoop.{program_station, program_water_time, check_program_switch}
use indigo_open_sprinkler_pl.System.Kept.{Unchanged, push_message-Unchanged}
use indigo_open_sprinkler_pl.System.Sensors.{programswitch_status-Unchanged}

-- The programs and their number are the same.
pub record Same (c d : Controller) : Type 0 where
  pub programs_same : d.programs ≡ c.programs
  pub nprograms_same : d.nprograms ≡ c.nprograms

pub Same-refl : (c : Controller) → Same c c
Same-refl c = record { programs_same = refl; nprograms_same = refl }

pub Same-trans : {c d e : Controller} → Same c d → Same d e → Same c e
Same-trans f g = record {
  programs_same = g.programs_same ∙ f.programs_same;
  nprograms_same = g.nprograms_same ∙ f.nprograms_same;
}

pub Unchanged-Same : {c d : Controller} → Unchanged c d → Same c d
Unchanged-Same u = record { programs_same = u.slots_same; nprograms_same = u.tables.nprograms_same }

pub if-Same : (b : Bool) {c d e : Controller} → Same c d → Same c e → Same c (if b then d else e)
if-Same true f g = f
if-Same false f g = g

schedule_all_stations-Same : (t : ℕ) (c : Controller) → Same c (schedule_all_stations t c)
unfolding schedule_all_stations mark_busy
schedule_all_stations-Same t c = ground arith

add_element-Same : (sid pid dur : ℕ) (c : Controller) → Same c (add_element sid pid dur c).0
unfolding add_element
add_element-Same sid pid dur c = elim (Option-cases (enqueue c.runtime)) [
  | inl e ↦ rw (add_element, e) (Same-refl c)
  | inr (r, e) ↦ rw (add_element, e) (record { programs_same = refl; nprograms_same = refl })
]

reset_all_stations_immediate-Same : (c : Controller) → Same c (reset_all_stations_immediate c)
unfolding reset_all_stations_immediate
reset_all_stations_immediate-Same c =
    let f = (clear_all_station_bits-RunFrame c).frame in
    let g = (apply_all_station_bits-RunFrame (clear_all_station_bits c)).frame in
    record {
      programs_same = g.programs_same ∙ f.programs_same;
      nprograms_same = g.nprograms_same ∙ f.nprograms_same;
    }

manual_station-Same :
    (pid : ℕ) (uwt : Bool) (sid : ℕ) (s : Controller × Bool)
    → Same s.0 (manual_station pid uwt sid s).0
unfolding manual_station
manual_station-Same pid uwt sid s =
    ground (arith, add_element-Same sid 254 (manual_water_time pid uwt sid s.0) s.0)

manual_start_program-Same :
    (pid : ℕ) (uwt : Bool) (c : Controller) → Same c (manual_start_program pid uwt c)
unfolding manual_start_program
manual_start_program-Same pid uwt c =
    if-Same queued.1
      (Same-trans queued-Same (schedule_all_stations-Same (now_tz queued.0) queued.0)) queued-Same
  where
    reset : Controller
    reset = reset_all_stations_immediate c

    level : ℤ
    level = if uwt then pos (reset.options option_water_percentage) else pos 100

    told : Controller
    told =
        if ltb 0 pid && ltb pid 255 then push_message program_sched (pid - 1) level reset else reset

    told-Same : Same c told
    told-Same = Same-trans (reset_all_stations_immediate-Same c) (
        if-Same (ltb 0 pid && ltb pid 255)
          (Unchanged-Same (push_message-Unchanged program_sched (pid - 1) level reset))
          (Same-refl reset))

    queued : Controller × Bool
    queued = replay told.nstations (manual_station pid uwt) (told, false)

    queued-Same : Same c queued.0
    queued-Same =
        replay_inv (λ s. Same c s.0) told.nstations (manual_station pid uwt) (told, false)
          (λ sid lt s k. Same-trans k (manual_station-Same pid uwt sid s)) told-Same

pub check_program_switch-Same : (pin t : ℕ) (c : Controller) → Same c (check_program_switch pin t c)
unfolding check_program_switch
check_program_switch-Same pin t c =
    if-Same (programswitch_status pin t c).1
      (if-Same (ltb 0 reset.nprograms)
        (Same-trans reset-Same (manual_start_program-Same 1 false reset)) reset-Same)
      pressed-Same
  where
    pressed : Controller
    pressed = (programswitch_status pin t c).0

    pressed-Same : Same c pressed
    pressed-Same = Unchanged-Same (programswitch_status-Unchanged pin t c)

    reset : Controller
    reset = reset_all_stations_immediate pressed

    reset-Same : Same c reset
    reset-Same = Same-trans pressed-Same (reset_all_stations_immediate-Same pressed)

pub program_station-Same :
    (pid : ℕ) (prog : ProgramStruct) (sid : ℕ) (s : Controller × Bool)
    → Same s.0 (program_station pid prog sid s).0
unfolding program_station
program_station-Same pid prog sid s =
    ground (arith, add_element-Same sid (pid + 1) (program_water_time prog sid s.0) s.0)
