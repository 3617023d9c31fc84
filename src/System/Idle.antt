-- ===== src/System/Idle.antt =====
-- The end of all programs (`do_loop` of firmware/main.cpp): when every queued element is over, one
-- second is enough.
use indigo_open_sprinkler_pl.Common.{
  ℕ, zero, suc, ◌+◌, ◌-◌, ◌*◌, ◌<◌, ◌≡◌, sym, ◌∙◌, ap, subst, arith, Bool, true, false, not, ◌&&◌,
  if◌then◌else◌, ltb, leb, ◌==◌, bit_test, update, replay_inv, dec_lt, ◌/◌,
}
use indigo_open_sprinkler_pl.Runtime.{
  Runtime, dequeue, release, reset_runtime, unlinked, max_num_stations,
}
use indigo_open_sprinkler_pl.Controller.{Controller, stop_time, write_log, push_message}
use indigo_open_sprinkler_pl.Controller.Stations.{
  station_on, clear_all_station_bits, apply_all_station_bits,
}
use indigo_open_sprinkler_pl.Controller.Stations.Bits.{AreBytes, station_on-clear_all}
use indigo_open_sprinkler_pl.Controller.Stations.Frame.{set_station_bit-RunFrame}
use indigo_open_sprinkler_pl.Scheduler.{turn_off_station, process_dynamic_events, is_master}
use indigo_open_sprinkler_pl.Scheduler.Stopping.{turn_off_station-runtime}
use indigo_open_sprinkler_pl.MainLoop.{
  assign, assign_all, turn_on, keep_time, keep_board, keep_all, is_over, clean_up, go_idle,
  run_programs, load_masters, last_stop,
}
use indigo_open_sprinkler_pl.MainLoop.Cleanup.{clean_up_lem}
use indigo_open_sprinkler_pl.System.{IsSafe}
use indigo_open_sprinkler_pl.System.Kept.{
  Unchanged-IsSafe, requeue-IsSafe, apply_all_station_bits-Unchanged,
}
use indigo_open_sprinkler_pl.System.Queueing.{process_dynamic_events-IsSafe}
use indigo_open_sprinkler_pl.System.Second.{
  assign_all-IsBounded, clean_up-IsBounded, keep_all-IsSafe,
}

-- Every queued element is over.
abbrev pub AllOver : ℕ → Runtime → Type 0
AllOver t r = (i : ℕ) → i < r.nqueue → is_over t (r.queue i) ≡ true

dequeue-AllOver : (t qid : ℕ) (r : Runtime) → AllOver t r → AllOver t (dequeue qid r)
unfolding dequeue update
dequeue-AllOver t qid r h i lt = ground (arith, h i, h (r.nqueue - 1))

release-AllOver : (t sid : ℕ) (r : Runtime) → AllOver t r → AllOver t (release sid r)
unfolding release
release-AllOver t sid r h = dequeue-AllOver t (r.station_qid sid) r h

turn_off_station-AllOver :
    (t sid : ℕ) (c : Controller)
    → AllOver t c.runtime
    → AllOver t (turn_off_station sid t c).runtime
turn_off_station-AllOver t sid c h =
    subst (AllOver t) (sym (turn_off_station-runtime sid t c))
      (split (leb c.runtime.nqueue (c.runtime.station_qid sid)))
  where
    split : (b : Bool) → AllOver t (if b then c.runtime else release sid c.runtime)
    split true = h
    split false = release-AllOver t sid c.runtime h

clean_up-AllOver : (t n : ℕ) (r : Runtime) → AllOver t r → AllOver t (clean_up t n r)
unfolding clean_up
clean_up-AllOver t zero r h = h
clean_up-AllOver t (suc n) r h = clean_up-AllOver t n _ (split (is_over t (r.queue n)))
  where
    split : (b : Bool) → AllOver t (if b then dequeue n r else r)
    split true = dequeue-AllOver t n r h
    split false = h

-- What clean-up leaves is not over: nothing is left.
clean_up-empty : (t : ℕ) (r : Runtime) → AllOver t r → (clean_up t r.nqueue r).nqueue ≡ 0
clean_up-empty t r h = elim (dec_lt 0 (clean_up t r.nqueue r).nqueue) [
  | yes lt ↦ absurd (clash (clean_up-AllOver t r.nqueue r h 0 lt) ((clean_up_lem t r).0 0 lt))
  | no ge ↦ omega arith
]
  where
    clash : {b : Bool} → b ≡ true → b ≡ false → ⊥
    clash e f = cc

assign-queue :
    (i : ℕ) (r : Runtime) → ((assign i r).queue ≡ r.queue) × ((assign i r).nqueue ≡ r.nqueue)
unfolding assign
assign-queue i r = (ground arith, ground arith)

assign_all-AllOver : (t : ℕ) (r : Runtime) → AllOver t r → AllOver t (assign_all r)
unfolding assign_all
assign_all-AllOver t r h =
    replay_inv (AllOver t) r.nqueue assign r
      (λ i lt s k. λ j jt. let q = assign-queue i s in rw q.0 (k j (omega (arith, q.1)))) h

turn_on-runtime :
    (t qid : ℕ) (was_on : Bool) (sid : ℕ) (c : Controller)
    → (turn_on t qid was_on sid c).runtime ≡ c.runtime
unfolding turn_on
turn_on-runtime t qid was_on sid c =
    ground (arith, (set_station_bit-RunFrame sid true c).runtime_same)

if-AllOver :
    (t : ℕ) (b : Bool) (c d : Controller)
    → AllOver t c.runtime
    → AllOver t d.runtime
    → AllOver t (if b then c else d).runtime
if-AllOver t true c d h k = h
if-AllOver t false c d h k = k

keep_time-AllOver :
    (t bits sid : ℕ) (c : Controller)
    → AllOver t c.runtime
    → AllOver t (keep_time t bits sid c).runtime
unfolding keep_time
keep_time-AllOver t bits sid c h = if-AllOver t (is_master c sid) c _ h (
    if-AllOver t (c.runtime.station_qid sid == unlinked) c _ h (
      subst (AllOver t)
        (sym (turn_on-runtime t (c.runtime.station_qid sid) (bit_test bits sid) sid stopped))
        (if-AllOver t _ (turn_off_station sid t c) c (turn_off_station-AllOver t sid c h) h)))
  where
    stopped : Controller
    stopped =
        let q = c.runtime.queue (c.runtime.station_qid sid) in
        if ltb 0 q.st && leb (stop_time q) t then turn_off_station sid t c else c

keep_all-AllOver : (t : ℕ) (c : Controller) → AllOver t c.runtime → AllOver t (keep_all t c).runtime
unfolding keep_all keep_board
keep_all-AllOver t c h =
    replay_inv (λ d. AllOver t d.runtime) c.nboards (keep_board t) c
      (λ bid lt d k.
        replay_inv (λ e. AllOver t e.runtime) 8
          (λ s. keep_time t (d.station_bits bid) (bid * 8 + s)) d
          (λ s m e. keep_time-AllOver t (d.station_bits bid) (bid * 8 + s) e) k)
      h

pub process_dynamic_events-empty :
    (t : ℕ) (c : Controller)
    → c.runtime.nqueue ≡ 0
    → (process_dynamic_events t c).runtime.nqueue ≡ 0
unfolding process_dynamic_events
process_dynamic_events-empty t c h =
    replay_inv (λ d. d.runtime.nqueue ≡ 0) (c.nboards * 8) _ c
      (λ sid lt d k. ground (arith, turn_off_station-runtime sid t d)) h

go_idle-fields :
    (t : ℕ) (c : Controller)
    → ((go_idle t c).runtime.nqueue ≡ 0)
      × ((go_idle t c).status.program_busy ≡ false)
      × ((go_idle t c).station_bits
          ≡ (apply_all_station_bits (clear_all_station_bits c)).station_bits)
      × ((s : ℕ) → s < max_num_stations → (go_idle t c).runtime.station_qid s ≡ unlinked)
unfolding go_idle write_log push_message load_masters reset_runtime
go_idle-fields t c = (ground arith, ground arith, ground arith, λ s lt. ground arith)

-- No station below the bound is on.
abbrev pub AllOff : Controller → Type 0
AllOff c = (j : ℕ) → j < max_num_stations → station_on c j ≡ false

pub go_idle-AllOff : (t : ℕ) (c : Controller) → AreBytes c → AllOff (go_idle t c)
go_idle-AllOff t c h j lt =
    ap (λ f. bit_test (f (j / 8)) j)
      ((go_idle-fields t c).2
        ∙ (apply_all_station_bits-Unchanged (clear_all_station_bits c)).tables.bits_same)
    ∙ station_on-clear_all c j h
    ∙ ground arith

pub run_programs-idle :
    (t : ℕ) (c : Controller)
    → IsSafe c
    → c.status.program_busy ≡ true
    → AllOver t c.runtime
    → ((run_programs t c).runtime.nqueue ≡ 0)
      × ((run_programs t c).status.program_busy ≡ false)
      × AllOff (run_programs t c)
unfolding run_programs
run_programs-idle t c safe busy over =
    subst (λ d. (d.runtime.nqueue ≡ 0) × (d.status.program_busy ≡ false) × AllOff d)
      (sym (
        chosen c (go_idle t timed) timed c.status.program_busy (timed.runtime.nqueue == 0) busy
          (ap (λ n. n == 0) empty)))
      ((go_idle-fields t timed).0, (go_idle-fields t timed).1, go_idle-AllOff t timed timed-bytes)
  where
    chosen :
        (x y z : Controller) (b e : Bool)
        → b ≡ true
        → e ≡ true
        → (if not b then x else if e then y else z) ≡ y
    chosen x y z b e p q = rw (p, q)

    assigned : Controller
    assigned = record c { runtime = assign_all c.runtime }

    kept : Controller
    kept = keep_all t assigned

    cleaned : Controller
    cleaned = record kept { runtime = clean_up t kept.runtime.nqueue kept.runtime }

    stopped : Controller
    stopped = apply_all_station_bits (process_dynamic_events t cleaned)

    timed : Controller
    timed = record stopped {
      runtime = record (stopped.runtime) {
        last_seq_stop_time = last_stop t stopped stopped.runtime.nqueue;
      };
    }

    empty : timed.runtime.nqueue ≡ 0
    empty =
        ap (λ r. r.nqueue)
          (apply_all_station_bits-Unchanged (process_dynamic_events t cleaned)).runtime_same
        ∙ process_dynamic_events-empty t cleaned (
            clean_up-empty t kept.runtime
              (keep_all-AllOver t assigned (assign_all-AllOver t c.runtime over)))

    timed-bytes : AreBytes timed
    timed-bytes =
        (Unchanged-IsSafe (apply_all_station_bits-Unchanged _) (
          process_dynamic_events-IsSafe t cleaned (
            requeue-IsSafe kept _ (clean_up-IsBounded t _ kept.runtime kept-IsSafe.runtime_bounded)
              kept-IsSafe))).bytes
      where
        kept-IsSafe : IsSafe kept
        kept-IsSafe =
            keep_all-IsSafe t assigned
              (requeue-IsSafe c _ (assign_all-IsBounded c.runtime safe.runtime_bounded) safe)
