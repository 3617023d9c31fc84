-- ===== src/MainLoop/Master.antt =====
-- The master valves, as `do_loop` of firmware/main.cpp switches them.
use indigo_open_sprinkler_pl.Common.{
  ℕ, zero, suc, ◌+◌, ◌-◌, ◌/◌, ◌≤◌, ◌<◌, ◌≡◌, ◌≢◌, ◌↔◌, inl, inr, ap, arith, Bool, true, ◌||◌,
  Bool-cases, ℕ_discrete, bit_test, ==_ne, ◌∙◌,
}
use indigo_open_sprinkler_pl.Common.Int.{ℤ}
use indigo_open_sprinkler_pl.WaterTime.{ulong_add, water_time_decode_signed}
use indigo_open_sprinkler_pl.Controller.{Controller, stop_time}
use indigo_open_sprinkler_pl.Controller.Stations.{station_on}
use indigo_open_sprinkler_pl.Controller.Stations.Bits.{AreBytes, station_on-set}
use indigo_open_sprinkler_pl.MainLoop.{asks_master, any_asks, handle_master}

any_asks_iff :
    (asks : ℕ → Bool) (n : ℕ)
    → (any_asks asks n ≡ true) ↔ ((sid : ℕ) × (sid < n) × (asks sid ≡ true))
unfolding any_asks
any_asks_iff asks zero = (λ e. cc, λ (sid, lt, e). absurd (omega arith))
any_asks_iff asks (suc n) = (mp (any_asks_iff asks n).0, mpr (any_asks_iff asks n).1)
  where
    mp :
        (any_asks asks n ≡ true → (sid : ℕ) × (sid < n) × (asks sid ≡ true))
        → (any_asks asks n || asks n) ≡ true
        → (sid : ℕ) × (sid < suc n) × (asks sid ≡ true)
    mp ih e = elim (Bool-cases (asks n)) [
      | inl now ↦ (n, omega arith, now)
      | inr not_now ↦ let (sid, lt, asked) = ih (ground arith) in (sid, omega arith, asked)
    ]

    mpr :
        (((sid : ℕ) × (sid < n) × (asks sid ≡ true)) → any_asks asks n ≡ true)
        → ((sid : ℕ) × (sid < suc n) × (asks sid ≡ true))
        → (any_asks asks n || asks n) ≡ true
    mpr ih (sid, lt, e) = elim (ℕ_discrete sid n) [
      | yes now ↦ ground (arith, ap asks now)
      | no earlier ↦ ground (arith, ih (sid, omega arith, e))
    ]

asks_master_iff :
    (curr_time mas : ℕ) (mas_op : ℕ → ℕ) (on_adj off_adj : ℤ) (c : Controller) (sid : ℕ)
    → let q = c.runtime.queue (c.runtime.station_qid sid) in
      (asks_master curr_time mas mas_op on_adj off_adj c sid ≡ true) ↔ (
        (mas ≢ sid + 1)
        × (station_on c sid ≡ true)
        × (bit_test (mas_op (sid / 8)) sid ≡ true)
        × (ulong_add q.st on_adj ≤ curr_time)
        × (curr_time ≤ ulong_add (stop_time q) off_adj))
unfolding asks_master
asks_master_iff curr_time mas mas_op on_adj off_adj c sid = (λ e. ground arith, λ e. ground arith)

-- With a master station set, its valve is on after the loop exactly if some other running station
-- that activates the master is within the adjusted window: from its start time plus the on
-- adjustment to its stop time plus the off adjustment, of the element at its link (for a station that
-- is not linked, what lies behind the array). The valves of all other stations stay.
pub handle_master_lem :
    (curr_time mas : ℕ) (mas_op : ℕ → ℕ) (on_adj off_adj : ℕ) (c : Controller)
    → AreBytes c
    → 0 < mas
    → let c' = handle_master curr_time mas mas_op on_adj off_adj c in
      let q = λ (sid : ℕ). c.runtime.queue (c.runtime.station_qid sid) in
      ((station_on c' (mas - 1) ≡ true) ↔ (
        (sid : ℕ) × (sid < c.nstations)
        × (mas ≢ sid + 1)
        × (station_on c sid ≡ true)
        × (bit_test (mas_op (sid / 8)) sid ≡ true)
        × (ulong_add (q sid).st (water_time_decode_signed on_adj) ≤ curr_time)
        × (curr_time ≤ ulong_add (stop_time (q sid)) (water_time_decode_signed off_adj))))
      × ((j : ℕ) → j ≢ mas - 1 → station_on c' j ≡ station_on c j)
unfolding handle_master
handle_master_lem curr_time mas mas_op on_adj off_adj c h k =
    let on = water_time_decode_signed on_adj in
    let off = water_time_decode_signed off_adj in
    let asks = asks_master curr_time mas mas_op on off c in
    let bit = any_asks asks c.nstations in
    let set = λ (j : ℕ). station_on-set (mas - 1) bit c j h in
    let asked = any_asks_iff asks c.nstations in
    rw (==_ne mas 0 (λ e. absurd (omega arith))) (
      (
        λ e.
            let (sid, lt, a) = asked.0 (ground (arith, set (mas - 1))) in
            let r = (asks_master_iff curr_time mas mas_op on off c sid).0 a in
            (sid, lt, r.0, r.1, r.2, r.3, r.4),
        λ (sid, lt, a, b, d, e, f). ground (
          arith,
          set (mas - 1),
          asked.1 (sid, lt, (asks_master_iff curr_time mas mas_op on off c sid).1 (a, b, d, e, f)),
        ),
      ),
      λ j ne. set j ∙ ground arith,
    )
