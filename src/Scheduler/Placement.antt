-- ===== src/Scheduler/Placement.antt =====
-- One round of the loop of `schedule_all_stations`.
use indigo_open_sprinkler_pl.Common.{
  ℕ, zero, suc, ◌+◌, ◌%◌, ◌≤◌, ◌<◌, ◌≡◌, ◌≢◌, inl, inr, ap, arith, Bool, true, false, update,
  Bool-cases, ℕ_discrete,
}
use indigo_open_sprinkler_pl.Common.Int.{pos}
use indigo_open_sprinkler_pl.WaterTime.{ulong_mod, ulong_add}
use indigo_open_sprinkler_pl.Runtime.{Element}
use indigo_open_sprinkler_pl.Scheduler.{Cursor, place}

-- An element that waits for a start time.
abbrev pub IsNew : Element → Type 0
IsNew e = (e.st ≡ 0) × (e.dur ≢ 0)

-- The water times and delays of the first n elements.
abbrev pub load : ℕ → (ℕ → Element) → ℕ → ℕ
load d q zero = 0
load d q (suc n) = load d q n + (q n).dur + d

-- What a round of the loop does to the element at its own index i: it is passed over, or it gets the
-- next sequential start time, or the next concurrent one.
pub data Placement (is_seq : ℕ → Bool) (d i : ℕ) (k k' : Cursor) : Type 0 where
  skipped : ¬ IsNew (k.queue i) → k' ≡ k → Placement is_seq d i k k'
  in_sequence :
      IsNew (k.queue i)
      → is_seq (k.queue i).sid ≡ true
      → k'.queue i ≡ record (k.queue i) { st = k.seq_start_time }
      → k'.seq_start_time ≡ ((k.seq_start_time + (k.queue i).dur) % ulong_mod + d) % ulong_mod
      → k'.con_start_time ≡ k.con_start_time
      → Placement is_seq d i k k'
  concurrent :
      IsNew (k.queue i)
      → is_seq (k.queue i).sid ≡ false
      → k'.queue i ≡ record (k.queue i) { st = k.con_start_time }
      → k'.seq_start_time ≡ k.seq_start_time
      → k'.con_start_time ≡ (k.con_start_time + 1) % ulong_mod
      → Placement is_seq d i k k'

pub place-Placement :
    (is_seq : ℕ → Bool) (d i : ℕ) (k : Cursor) → Placement is_seq d i k (place is_seq (pos d) i k)
unfolding place update ulong_add
place-Placement is_seq d i k = elim (ℕ_discrete (k.queue i).st 0) [
  | no p ↦ skipped (λ h. p h.0) (ground arith)
  | yes p ↦ elim (ℕ_discrete (k.queue i).dur 0) [
    | yes q ↦ skipped (λ h. h.1 q) (ground arith)
    | no q ↦ elim (Bool-cases (is_seq (k.queue i).sid)) [
      | inl e ↦ in_sequence (p, q) e (ground arith) (ground arith) (ground arith)
      | inr e ↦ concurrent (p, q) e (ground arith) (ground arith) (ground arith)
    ]
  ]
]

module _ {is_seq : ℕ → Bool} {d i : ℕ} {k k' : Cursor} where
  pub Placement-seq :
      Placement is_seq d i k k'
      → k.seq_start_time + (k.queue i).dur + d < ulong_mod
      → (k.seq_start_time ≤ k'.seq_start_time)
        × (k'.seq_start_time ≤ k.seq_start_time + (k.queue i).dur + d)
  Placement-seq (skipped p e) h = ground arith
  Placement-seq (in_sequence p e f g c) h = omega arith
  Placement-seq (concurrent p e f g c) h = omega arith

  pub Placement-in_sequence :
      Placement is_seq d i k k'
      → IsNew (k.queue i)
      → is_seq (k.queue i).sid ≡ true
      → k.seq_start_time + (k.queue i).dur + d < ulong_mod
      → ((k'.queue i).st ≡ k.seq_start_time)
        × (k'.seq_start_time ≡ k.seq_start_time + (k.queue i).dur + d)
  Placement-in_sequence (skipped p e) new q h = absurd (p new)
  Placement-in_sequence (in_sequence p e f g c) new q h = (ap (λ x. x.st) f, omega arith)
  Placement-in_sequence (concurrent p e f g c) new q h = cc

  pub Placement-con :
      Placement is_seq d i k k'
      → k.con_start_time + 1 < ulong_mod
      → (k.con_start_time ≤ k'.con_start_time) × (k'.con_start_time ≤ k.con_start_time + 1)
  Placement-con (skipped p e) h = ground arith
  Placement-con (in_sequence p e f g c) h = omega arith
  Placement-con (concurrent p e f g c) h = omega arith

  pub Placement-concurrent :
      Placement is_seq d i k k'
      → IsNew (k.queue i)
      → is_seq (k.queue i).sid ≡ false
      → k.con_start_time + 1 < ulong_mod
      → ((k'.queue i).st ≡ k.con_start_time) × (k'.con_start_time ≡ k.con_start_time + 1)
  Placement-concurrent (skipped p e) new q h = absurd (p new)
  Placement-concurrent (in_sequence p e f g c) new q h = cc
  Placement-concurrent (concurrent p e f g c) new q h = (ap (λ x. x.st) f, omega arith)

  -- All but the start time stays, and the start time too unless the element was new.
  pub Placement-kept :
      Placement is_seq d i k k'
      → ((k'.queue i).dur ≡ (k.queue i).dur)
        × ((k'.queue i).sid ≡ (k.queue i).sid)
        × ((k'.queue i).pid ≡ (k.queue i).pid)
        × (¬ IsNew (k.queue i) → k'.queue i ≡ k.queue i)
  Placement-kept (skipped p e) = (
    ap (λ x. (x.queue i).dur) e,
    ap (λ x. (x.queue i).sid) e,
    ap (λ x. (x.queue i).pid) e,
    λ h. ap (λ x. x.queue i) e,
  )
  Placement-kept (in_sequence p e f g c) =
      (ap (λ x. x.dur) f, ap (λ x. x.sid) f, ap (λ x. x.pid) f, λ h. absurd (h p))
  Placement-kept (concurrent p e f g c) =
      (ap (λ x. x.dur) f, ap (λ x. x.sid) f, ap (λ x. x.pid) f, λ h. absurd (h p))
