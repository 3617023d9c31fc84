-- ===== src/Setup/Closed.antt =====
-- The valves after the start of the controller (`do_setup`).
use indigo_open_sprinkler_pl.Common.{
  ℕ, ◌-◌, ◌/◌, ◌<◌, ◌≡◌, refl, ◌∙◌, ap, arith, Bool, false, get_or, bit_test,
}
use indigo_open_sprinkler_pl.Runtime.{max_num_stations, reset_runtime}
use indigo_open_sprinkler_pl.Controller.{Controller}
use indigo_open_sprinkler_pl.Controller.Stations.{station_on, clear_all_station_bits}
use indigo_open_sprinkler_pl.Controller.Stations.Bits.{
  AreBytes, station_on-clear_all, valves-apply_all,
}
use indigo_open_sprinkler_pl.Controller.Stations.Frame.{
  clear_all_station_bits-RunFrame, apply_all_station_bits-RunFrame,
}
use indigo_open_sprinkler_pl.Setup.{power_on, begin, do_setup}
use indigo_open_sprinkler_pl.Setup.Kept.{stored-kept, do_setup-kept, begin-bits}

pub power_on-AreBytes : (hw : ℕ) (c : Controller) → AreBytes (power_on hw c)
unfolding power_on
power_on-AreBytes hw c b = omega arith

begin-valves :
    (hw sid : ℕ) (c : Controller)
    → sid < max_num_stations
    → get_or (begin (power_on hw c)).valves (max_num_stations - 1 - sid) false ≡ false
unfolding begin power_on
begin-valves hw sid c lt =
    valves-apply_all (clear_all_station_bits (power_on hw c)) sid lt
    ∙ rw (clear_all_station_bits-RunFrame (power_on hw c)).frame.status_same refl

begin-idle : (hw : ℕ) (c : Controller) → (begin (power_on hw c)).status.program_busy ≡ false
unfolding begin power_on
begin-idle hw c =
    ap (λ s. s.program_busy)
      ((apply_all_station_bits-RunFrame (clear_all_station_bits (power_on hw c))).frame.status_same
        ∙ (clear_all_station_bits-RunFrame (power_on hw c)).frame.status_same)

-- However the valves and the non-volatile memory were left, after the start no station is on, every
-- valve is closed, no element is queued and the controller is not busy.
pub do_setup-closed :
    (hw : ℕ) (network : Bool) (c : Controller)
    → let d = do_setup network (power_on hw c) in
      (d.runtime.nqueue ≡ 0)
      × (d.status.program_busy ≡ false)
      × ((sid : ℕ) → sid < max_num_stations → station_on d sid ≡ false)
      × ((sid : ℕ)
          → sid < max_num_stations
          → get_or d.valves (max_num_stations - 1 - sid) false ≡ false)
unfolding reset_runtime
do_setup-closed hw network c =
    let p = power_on hw c in
    let (bits, valves, busy, queue, count) = do_setup-kept network p in
    let (bits', valves', busy', queue') = stored-kept (begin p) in
    (
      ap (λ r. r.nqueue) queue,
      busy ∙ busy' ∙ begin-idle hw c,
      λ sid lt.
          ap (λ f. bit_test (f (sid / 8)) sid) (bits ∙ bits' ∙ begin-bits p)
          ∙ station_on-clear_all p sid (power_on-AreBytes hw c)
          ∙ ground arith,
      λ sid lt.
          ap (λ v. get_or v (max_num_stations - 1 - sid) false) (valves ∙ valves')
          ∙ begin-valves hw sid c lt,
    )
