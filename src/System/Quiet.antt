-- ===== src/System/Quiet.antt =====
-- A whole second (`do_loop` of firmware/main.cpp) after the last run: the valves are shut.
use indigo_open_sprinkler_pl.Common.{
  ℕ, zero, suc, ◌-◌, ◌*◌, ◌<◌, ◌≡◌, ◌≢◌, ==_ne, some, refl, sym, ◌∙◌, ap, subst, arith, Bool, true,
  false, if◌then◌else◌, ◌==◌, bit_test, get_or, replay_inv, ◌/◌,
}
use indigo_open_sprinkler_pl.Common.Int.{ℤ}
use indigo_open_sprinkler_pl.Runtime.{max_num_stations}
use indigo_open_sprinkler_pl.Controller.{Controller}
use indigo_open_sprinkler_pl.Controller.Stations.{
  set_station_bit, station_on, apply_all_station_bits,
}
use indigo_open_sprinkler_pl.Controller.Stations.Bits.{station_on-set, valves-apply_all}
use indigo_open_sprinkler_pl.Controller.Stations.Frame.{
  RunFrame, RunFrame-refl, RunFrame-trans, set_station_bit-RunFrame,
}
use indigo_open_sprinkler_pl.Program.{Tm}
use indigo_open_sprinkler_pl.Controller.OptionIndex.{option_sensor_type}
use indigo_open_sprinkler_pl.Controller.Settings.{sensor_type_pswitch, programswitch_status}
use indigo_open_sprinkler_pl.Scheduler.{
  turn_off_station, process_dynamic_events, must_stop, is_raining,
}
use indigo_open_sprinkler_pl.Scheduler.Stopping.{turn_off_station-bits, turn_off_station-Frame}
use indigo_open_sprinkler_pl.MainLoop.{
  run_programs, load_masters, any_asks, asks_master, handle_master, handle_masters, do_second,
  check_rain_delay, log_rain_delay, check_rain_sensor, check_program_switch,
}
use indigo_open_sprinkler_pl.System.Idle.{
  AllOver, AllOff, process_dynamic_events-empty, run_programs-idle,
}
use indigo_open_sprinkler_pl.System.Sensors.{
  load_masters-Unchanged, check_rain_delay-Unchanged, log_rain_delay-Unchanged,
  check_rain_sensor-Unchanged,
}
use indigo_open_sprinkler_pl.System.{IsSafe}
use indigo_open_sprinkler_pl.WaterTime.{water_time_decode_signed}
use indigo_open_sprinkler_pl.System.Kept.{
  Unchanged, Unchanged-trans, Unchanged-IsSafe, apply_all_station_bits-Unchanged,
}
use indigo_open_sprinkler_pl.System.Queueing.{nstations-le, turn_off_station-IsSafe}
use indigo_open_sprinkler_pl.System.Second.{
  run_programs-IsSafe, handle_master-IsSafe, handle_masters-IsSafe,
}

-- What the valves show of a state in which no station is on.
apply_all-shut :
    (c : Controller) (sid : ℕ)
    → AllOff c
    → sid < max_num_stations
    → get_or (apply_all_station_bits c).valves (max_num_stations - 1 - sid) false ≡ false
apply_all-shut c sid h lt = ground (arith, valves-apply_all c sid lt, h sid lt)

any_asks-none :
    (asks : ℕ → Bool) (n : ℕ) → ((i : ℕ) → i < n → asks i ≡ false) → any_asks asks n ≡ false
unfolding any_asks
any_asks-none asks zero h = refl
any_asks-none asks (suc n) h =
    rw (any_asks-none asks n (λ i lt. h i (omega arith)), h n (omega arith))

asks_master-off :
    (t mas : ℕ) (op : ℕ → ℕ) (on off : ℤ) (c : Controller) (sid : ℕ)
    → station_on c sid ≡ false
    → asks_master t mas op on off c sid ≡ false
unfolding asks_master
asks_master-off t mas op on off c sid h = ground arith

-- A master station is not asked for.
handle_master-AllOff :
    (t mas : ℕ) (op : ℕ → ℕ) (on off : ℕ) (c : Controller)
    → IsSafe c
    → AllOff c
    → AllOff (handle_master t mas op on off c)
unfolding handle_master
handle_master-AllOff t mas op on off c safe h = split (mas == 0)
  where
    asks : ℕ → Bool
    asks = asks_master t mas op (water_time_decode_signed on) (water_time_decode_signed off) c

    none_asks : any_asks asks c.nstations ≡ false
    none_asks =
        any_asks-none asks c.nstations
          (λ i lt. asks_master-off t mas op _ _ c i (h i (omega (arith, lt, nstations-le safe))))

    split :
        (b : Bool)
        → AllOff (if b then c else (set_station_bit (mas - 1) (any_asks asks c.nstations) c).0)
    split true j lt = h j lt
    split false j lt =
        station_on-set (mas - 1) (any_asks asks c.nstations) c j safe.bytes
        ∙ ground (arith, none_asks, h j lt)

handle_master-RunFrame :
    (t mas : ℕ) (op : ℕ → ℕ) (on off : ℕ) (c : Controller)
    → RunFrame c (handle_master t mas op on off c)
unfolding handle_master
handle_master-RunFrame t mas op on off c = split (mas == 0)
  where
    v : Bool
    v =
        any_asks
          (asks_master t mas op (water_time_decode_signed on) (water_time_decode_signed off) c)
          c.nstations

    split : (b : Bool) → RunFrame c (if b then c else (set_station_bit (mas - 1) v c).0)
    split true = RunFrame-refl c
    split false = set_station_bit-RunFrame (mas - 1) v c

handle_masters-RunFrame : (t : ℕ) (c : Controller) → RunFrame c (handle_masters t c)
unfolding handle_masters
handle_masters-RunFrame t c =
    RunFrame-trans (handle_master-RunFrame t _ _ _ _ c) (handle_master-RunFrame t _ _ _ _ _)

process_dynamic_events-AllOff :
    (t : ℕ) (c : Controller) → IsSafe c → AllOff c → AllOff (process_dynamic_events t c)
unfolding process_dynamic_events
process_dynamic_events-AllOff t c safe h =
    (replay_inv (λ d. IsSafe d × AllOff d) (c.nboards * 8) _ c
      (λ sid lt d k. split sid d k (must_stop c.status.enabled (is_raining c) sid d)) (safe, h)).1
  where
    split :
        (sid : ℕ) (d : Controller)
        → IsSafe d × AllOff d
        → (b : Bool)
        → IsSafe (if b then turn_off_station sid t d else d)
          × AllOff (if b then turn_off_station sid t d else d)
    split sid d k true = (
      turn_off_station-IsSafe sid t d k.0,
      λ j lt.
          ap (λ f. bit_test (f (j / 8)) j) (turn_off_station-bits sid t d)
          ∙ station_on-set sid false d j k.0.bytes
          ∙ ground (arith, k.1 j lt),
    )
    split sid d k false = k

switch_unused :
    (pin t : ℕ) (c : Controller)
    → c.options option_sensor_type ≢ sensor_type_pswitch
    → check_program_switch pin t c ≡ c
unfolding check_program_switch programswitch_status
switch_unused pin t c ne = rw (==_ne (c.options option_sensor_type) sensor_type_pswitch ne)

handle_masters-AllOff : (t : ℕ) (c : Controller) → IsSafe c → AllOff c → AllOff (handle_masters t c)
unfolding handle_masters
handle_masters-AllOff t c safe h =
    handle_master-AllOff t _ _ _ _ _ (handle_master-IsSafe t _ _ _ _ c safe)
      (handle_master-AllOff t _ _ _ _ c safe h)

process_dynamic_events-busy :
    (t : ℕ) (c : Controller)
    → c.status.program_busy ≡ false
    → (process_dynamic_events t c).status.program_busy ≡ false
unfolding process_dynamic_events
process_dynamic_events-busy t c h =
    replay_inv (λ d. d.status.program_busy ≡ false) (c.nboards * 8) _ c
      (λ sid lt d k. ground (arith, (turn_off_station-Frame sid t d).status_same)) h

-- A second of `do_loop` without the start of a minute and without a program switch, in a safe state
-- that is busy, when every queued element has run out or is marked for removal: the second comes
-- to its end, the queue is then empty, the controller is no longer busy, and no valve is open.
pub do_second-idle :
    (gmtime : ℕ → Tm) (pin t : ℕ) (c : Controller)
    → IsSafe c
    → c.status.program_busy ≡ true
    → c.options option_sensor_type ≢ sensor_type_pswitch
    → AllOver t c.runtime
    → (d : Controller) × (do_second gmtime pin false t c ≡ some d)
      × (d.runtime.nqueue ≡ 0)
      × (d.status.program_busy ≡ false)
      × ((sid : ℕ)
          → sid < max_num_stations
          → get_or d.valves (max_num_stations - 1 - sid) false ≡ false)
unfolding do_second
do_second-idle gmtime pin t c safe busy sensor over = (
  apply_all_station_bits events,
  rw (do_second, not_pressed),
  ap (λ r. r.nqueue) (apply_all_station_bits-Unchanged events).runtime_same
      ∙ process_dynamic_events-empty t (handle_masters t run)
          (ap (λ r. r.nqueue) masters.runtime_same ∙ idle.0),
  (apply_all_station_bits-Unchanged events).busy_same
      ∙ process_dynamic_events-busy t (handle_masters t run)
          (ap (λ s. s.program_busy) masters.frame.status_same ∙ idle.1),
  λ sid lt. apply_all-shut events sid events-off lt,
)
  where
    rain : Controller
    rain = log_rain_delay t (check_rain_delay t (load_masters c))

    sensed : Controller
    sensed = check_rain_sensor pin t rain

    same_state : Unchanged c sensed
    same_state =
        Unchanged-trans
          (Unchanged-trans
            (Unchanged-trans (load_masters-Unchanged c) (check_rain_delay-Unchanged t _))
            (log_rain_delay-Unchanged t _))
          (check_rain_sensor-Unchanged pin t rain)

    not_pressed : check_program_switch pin t sensed ≡ sensed
    not_pressed =
        switch_unused pin t sensed
          (λ e. sensor (ap (λ o. o option_sensor_type) (sym same_state.tables.options_same) ∙ e))

    run : Controller
    run = run_programs t sensed

    idle : (run.runtime.nqueue ≡ 0) × (run.status.program_busy ≡ false) × AllOff run
    idle =
        run_programs-idle t sensed (Unchanged-IsSafe same_state safe) (same_state.busy_same ∙ busy)
          (subst (AllOver t) (sym same_state.runtime_same) over)

    masters : RunFrame run (handle_masters t run)
    masters = handle_masters-RunFrame t run

    events : Controller
    events = process_dynamic_events t (handle_masters t run)

    run-IsSafe : IsSafe run
    run-IsSafe = run_programs-IsSafe t sensed (Unchanged-IsSafe same_state safe)

    events-off : AllOff events
    events-off =
        process_dynamic_events-AllOff t (handle_masters t run)
          (handle_masters-IsSafe t run run-IsSafe) (handle_masters-AllOff t run run-IsSafe idle.2)
