-- ===== src/Scheduler/Rounds.antt =====
-- The whole loop of `schedule_all_stations` of firmware/main.cpp.
use native.Mathlib.Nat.{le_refl}
use indigo_open_sprinkler_pl.Common.{
  ℕ, zero, suc, ◌+◌, ◌≤◌, ◌<◌, ◌≡◌, ◌≢◌, refl, sym, ◌∙◌, ap, arith, Bool, true, false, update,
  replay, ℕ_discrete,
}
use indigo_open_sprinkler_pl.Common.Int.{pos}
use indigo_open_sprinkler_pl.WaterTime.{ulong_mod}
use indigo_open_sprinkler_pl.Scheduler.{Cursor, place}
use indigo_open_sprinkler_pl.Scheduler.Placement.{
  IsNew, load, Placement, place-Placement, Placement-seq, Placement-in_sequence, Placement-con,
  Placement-concurrent, Placement-kept,
}

module _ (is_seq : ℕ → Bool) (d : ℕ) (s : Cursor) where
  abbrev pub at : ℕ → Cursor
  at n = replay n (place is_seq (pos d)) s

  -- Only the element at the round's own index is written, and of it only the start time.
  place_other : (k : Cursor) (i j : ℕ) → j ≢ i → (place is_seq (pos d) i k).queue j ≡ k.queue j
  unfolding place update
  place_other k i j h = ground arith

  pub later_same : (n j : ℕ) → n ≤ j → (at n).queue j ≡ s.queue j
  later_same zero j h = refl
  later_same (suc n) j h =
      place_other (at n) n j (λ e. absurd (omega arith)) ∙ later_same n j (omega arith)

  -- After round n the element n has its final value.
  settled : (m n : ℕ) → n < m → (at m).queue n ≡ (at (suc n)).queue n
  settled zero n h = absurd (omega arith)
  settled (suc m) n h = elim (ℕ_discrete n m) [
    | yes e ↦ ap (λ k. (at (suc k)).queue n) (sym e)
    | no ne ↦ place_other (at m) m n ne ∙ settled m n (omega arith)
  ]

  -- The element of round n is still the one of the start.
  at_own : (n : ℕ) → (at n).queue n ≡ s.queue n
  at_own n = later_same n n (le_refl n)

  round : (n : ℕ) → Placement is_seq d n (at n) (at (suc n))
  round n = place-Placement is_seq d n (at n)

  -- The sequential start time only grows, by no more than the load, as long as it does not wrap.
  pub seq_bounds :
      (n : ℕ)
      → s.seq_start_time + load d s.queue n < ulong_mod
      → (s.seq_start_time ≤ (at n).seq_start_time)
        × ((at n).seq_start_time ≤ s.seq_start_time + load d s.queue n)
  seq_bounds zero h = (omega arith, omega arith)
  seq_bounds (suc n) h = omega (
    arith,
    seq_bounds n (omega arith),
    ap (λ e. e.dur) (at_own n),
    Placement-seq (round n) (omega (arith, seq_bounds n (omega arith), ap (λ e. e.dur) (at_own n))),
  )

  pub seq_mono :
      (n m : ℕ)
      → n ≤ m
      → s.seq_start_time + load d s.queue m < ulong_mod
      → (at n).seq_start_time ≤ (at m).seq_start_time
  seq_mono n zero h k = let e : n ≡ 0 = omega arith in rw e (le_refl _)
  seq_mono n (suc m) h k = elim (ℕ_discrete n (suc m)) [
    | yes e ↦ rw e (le_refl _)
    | no ne ↦ omega (
      arith,
      seq_mono n m (omega arith) (omega arith),
      seq_bounds m (omega arith),
      ap (λ e. e.dur) (at_own m),
      Placement-seq (round m)
          (omega (arith, seq_bounds m (omega arith), ap (λ e. e.dur) (at_own m))),
    )
  ]

  pub con_bounds :
      (n : ℕ)
      → s.con_start_time + n < ulong_mod
      → (s.con_start_time ≤ (at n).con_start_time) × ((at n).con_start_time ≤ s.con_start_time + n)
  con_bounds zero h = (omega arith, omega arith)
  con_bounds (suc n) h = omega (
    arith,
    con_bounds n (omega arith),
    Placement-con (round n) (omega (arith, con_bounds n (omega arith))),
  )

  pub con_mono :
      (n m : ℕ)
      → n ≤ m
      → s.con_start_time + m < ulong_mod
      → (at n).con_start_time ≤ (at m).con_start_time
  con_mono n zero h k = let e : n ≡ 0 = omega arith in rw e (le_refl _)
  con_mono n (suc m) h k = elim (ℕ_discrete n (suc m)) [
    | yes e ↦ rw e (le_refl _)
    | no ne ↦ omega (
      arith,
      con_mono n m (omega arith) (omega arith),
      con_bounds m (omega arith),
      Placement-con (round m) (omega (arith, con_bounds m (omega arith))),
    )
  ]

  -- The load of more elements is no smaller.
  pub load_mono : (n m : ℕ) → n ≤ m → load d s.queue n ≤ load d s.queue m
  load_mono n zero h = let e : n ≡ 0 = omega arith in rw e (le_refl _)
  load_mono n (suc m) h = elim (ℕ_discrete n (suc m)) [
    | yes e ↦ rw e (le_refl _)
    | no ne ↦ omega (arith, load_mono n m (omega arith))
  ]

  pub final_kept :
      (m n : ℕ)
      → n < m
      → (((at m).queue n).dur ≡ (s.queue n).dur)
        × (((at m).queue n).sid ≡ (s.queue n).sid)
        × (((at m).queue n).pid ≡ (s.queue n).pid)
        × (¬ IsNew (s.queue n) → (at m).queue n ≡ s.queue n)
  final_kept m n h = let k = Placement-kept (round n) in rw (settled m n h, ← at_own n) k

  module _ (m n : ℕ) (h : n < m) (new : IsNew (s.queue n)) where
    pub final_seq :
        is_seq (s.queue n).sid ≡ true
        → s.seq_start_time + load d s.queue m < ulong_mod
        → (((at m).queue n).st ≡ (at n).seq_start_time)
          × ((at (suc n)).seq_start_time ≡ ((at m).queue n).st + (s.queue n).dur + d)
    final_seq q k =
        let room = load_mono (suc n) m h in
        let dur = ap (λ e. e.dur) (at_own n) in
        let low = seq_bounds n (omega arith) in
        let r =
          Placement-in_sequence (round n) (rw (at_own n) new) (rw (at_own n) q) (omega arith) in
        let st = ap (λ e. e.st) (settled m n h) in (omega arith, omega arith)

    pub final_con :
        is_seq (s.queue n).sid ≡ false
        → s.con_start_time + m < ulong_mod
        → (((at m).queue n).st ≡ (at n).con_start_time)
          × ((at (suc n)).con_start_time ≡ ((at m).queue n).st + 1)
    final_con q k =
        let low = con_bounds n (omega arith) in
        let r =
          Placement-concurrent (round n) (rw (at_own n) new) (rw (at_own n) q) (omega arith) in
        let st = ap (λ e. e.st) (settled m n h) in (omega arith, omega arith)

  -- Two new sequential elements in their order in the queue.
  pub seq_order :
      (m i j : ℕ)
      → i < j
      → j < m
      → IsNew (s.queue i)
      → IsNew (s.queue j)
      → is_seq (s.queue i).sid ≡ true
      → is_seq (s.queue j).sid ≡ true
      → s.seq_start_time + load d s.queue m < ulong_mod
      → ((at m).queue i).st + (s.queue i).dur + d ≤ ((at m).queue j).st
  seq_order m i j h k ni nj qi qj room = omega (
    arith,
    final_seq m i (omega arith) ni qi room,
    final_seq m j k nj qj room,
    load_mono j m (omega arith),
    seq_mono (suc i) j h (omega (arith, load_mono j m (omega arith))),
  )

  pub con_order :
      (m i j : ℕ)
      → i < j
      → j < m
      → IsNew (s.queue i)
      → IsNew (s.queue j)
      → is_seq (s.queue i).sid ≡ false
      → is_seq (s.queue j).sid ≡ false
      → s.con_start_time + m < ulong_mod
      → ((at m).queue i).st + 1 ≤ ((at m).queue j).st
  con_order m i j h k ni nj qi qj room = omega (
    arith,
    final_con m i (omega arith) ni qi room,
    final_con m j k nj qj room,
    con_mono (suc i) j h (omega arith),
  )
