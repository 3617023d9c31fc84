-- ===== src/Scheduler/Starts.antt =====
-- The start times that `schedule_all_stations` hands out.
use indigo_open_sprinkler_pl.Common.{
  ℕ, zero, suc, ◌+◌, ◌≤◌, ◌<◌, ◌≡◌, ◌≢◌, ==_ne, inl, inr, refl, sym, ◌∙◌, max, subst, ap, arith,
  Bool, true, false, update, replay, Bool-cases, ℕ_discrete,
}
use indigo_open_sprinkler_pl.Common.Int.{ℤ, pos}
use indigo_open_sprinkler_pl.WaterTime.{ulong_mod, ulong_add, water_time_decode_signed}
use indigo_open_sprinkler_pl.Runtime.{Element}
use indigo_open_sprinkler_pl.Controller.{Controller}
use indigo_open_sprinkler_pl.Controller.OptionIndex.{option_station_delay_time}
use indigo_open_sprinkler_pl.Scheduler.{
  sequential, Cursor, place, start_cursor, mark_busy, schedule_all_stations,
}
use indigo_open_sprinkler_pl.Scheduler.Placement.{IsNew, load}
use indigo_open_sprinkler_pl.Scheduler.Rounds.{
  seq_order, con_order, final_seq, final_con, seq_bounds, con_bounds, load_mono, at,
}

-- The state after the scheduler.
abbrev pub scheduled : ℕ → Controller → ℕ → Element
scheduled curr_time c = (schedule_all_stations curr_time c).runtime.queue

pub mark_busy-runtime : (t : ℕ) (c : Controller) → (mark_busy t c).runtime ≡ c.runtime
unfolding mark_busy
mark_busy-runtime t c = ground arith

-- The cursor at the end of the loop.
abbrev finish : ℕ → Controller → ℤ → Cursor
finish curr_time c z = replay c.runtime.nqueue (place (sequential c) z) (start_cursor curr_time c)

abbrev delay_of : Controller → ℤ
delay_of c = water_time_decode_signed (c.options option_station_delay_time)

pub schedule-runtime :
    (curr_time : ℕ) (c : Controller)
    → (schedule_all_stations curr_time c).runtime
      ≡ record (c.runtime) { queue = (finish curr_time c (delay_of c)).queue }
unfolding schedule_all_stations
schedule-runtime curr_time c = elim (Bool-cases (finish curr_time c (delay_of c)).placed) [
  | inl e ↦ rw e (mark_busy-runtime curr_time _)
  | inr e ↦ rw e
]

module _ (curr_time : ℕ) (c : Controller) (d : ℕ)
    (delay : water_time_decode_signed (c.options option_station_delay_time) ≡ pos d) where
  scheduled-at :
      scheduled curr_time c
      ≡ (at (sequential c) d (start_cursor curr_time c) c.runtime.nqueue).queue
  scheduled-at =
      ap (λ r. r.queue) (schedule-runtime curr_time c)
      ∙ ap (λ z. (finish curr_time c z).queue) delay

  start-queue : (start_cursor curr_time c).queue ≡ c.runtime.queue
  unfolding start_cursor
  start-queue = refl

  start-low :
      curr_time + 1 < ulong_mod
      → c.runtime.last_seq_stop_time + d < ulong_mod
      → ((start_cursor curr_time c).con_start_time ≡ curr_time + 1)
        × (curr_time < (start_cursor curr_time c).seq_start_time)
        × (c.runtime.last_seq_stop_time ≤ (start_cursor curr_time c).seq_start_time)
        × ((start_cursor curr_time c).seq_start_time
            ≤ max (curr_time + 1) (c.runtime.last_seq_stop_time + d))
  unfolding start_cursor ulong_add
  start-low h k = ground (arith, delay)

  -- The loop's laws, read at the controller's queue.
  rounds_order :
      (i j : ℕ)
      → i < j
      → j < c.runtime.nqueue
      → IsNew (c.runtime.queue i)
      → IsNew (c.runtime.queue j)
      → (sequential c (c.runtime.queue i).sid ≡ true
          → sequential c (c.runtime.queue j).sid ≡ true
          → (start_cursor curr_time c).seq_start_time + load d c.runtime.queue c.runtime.nqueue
            < ulong_mod
          → ((scheduled curr_time c i).st + (c.runtime.queue i).dur + d
              ≤ (scheduled curr_time c j).st)
            × ((start_cursor curr_time c).seq_start_time ≤ (scheduled curr_time c i).st))
        × (sequential c (c.runtime.queue i).sid ≡ false
            → sequential c (c.runtime.queue j).sid ≡ false
            → (start_cursor curr_time c).con_start_time + c.runtime.nqueue < ulong_mod
            → ((scheduled curr_time c i).st + 1 ≤ (scheduled curr_time c j).st)
              × ((start_cursor curr_time c).con_start_time ≤ (scheduled curr_time c i).st)
              × ((scheduled curr_time c j).st
                  ≤ (start_cursor curr_time c).con_start_time + c.runtime.nqueue))
  unfolding start_cursor
  rounds_order i j h k ni nj =
      let n = c.runtime.nqueue in
      let sq = sequential c in
      let s0 = start_cursor curr_time c in
      rw scheduled-at (
        λ qi qj room. (
          seq_order sq d s0 n i j h k ni nj qi qj room,
          omega (
            arith,
            final_seq sq d s0 n i (omega arith) ni qi room,
            load_mono sq d s0 i n (omega arith),
            seq_bounds sq d s0 i (omega (arith, load_mono sq d s0 i n (omega arith))),
          ),
        ),
        λ qi qj room. (
          con_order sq d s0 n i j h k ni nj qi qj room,
          omega (
            arith,
            final_con sq d s0 n i (omega arith) ni qi room,
            con_bounds sq d s0 i (omega arith),
          ),
          omega (arith, final_con sq d s0 n j k nj qj room, con_bounds sq d s0 j (omega arith)),
        ),
      )

  module _
      (room : max (curr_time + 1) (c.runtime.last_seq_stop_time + d)
          + load d c.runtime.queue c.runtime.nqueue
          + c.runtime.nqueue
        < ulong_mod) where
    -- Runs of sequential stations follow one another: of two new elements the one further down the
    -- queue starts no earlier than the station delay after the end of the other; the first starts
    -- after the current time and not before the last stop time of the sequential stations that run
    -- already. (The delay is not negative, and no start time reaches 2^32.)
    pub sequential_order :
        (i j : ℕ)
        → i < j
        → j < c.runtime.nqueue
        → IsNew (c.runtime.queue i)
        → IsNew (c.runtime.queue j)
        → sequential c (c.runtime.queue i).sid ≡ true
        → sequential c (c.runtime.queue j).sid ≡ true
        → ((scheduled curr_time c i).st + (c.runtime.queue i).dur + d
            ≤ (scheduled curr_time c j).st)
          × (curr_time < (scheduled curr_time c i).st)
          × (c.runtime.last_seq_stop_time ≤ (scheduled curr_time c i).st)
    sequential_order i j h k ni nj qi qj =
        let low = start-low (omega arith) (omega arith) in
        let r = (rounds_order i j h k ni nj).0 qi qj (omega arith) in
        (r.0, omega arith, omega arith)

    -- Stations that run concurrently start after the current time, within one second more than there
    -- are queue elements, in the order of the queue and no two in the same second: this holds for any
    -- two new elements of such stations, where the station delay is not negative and the times that
    -- all queued elements together can reach stay below 2^32.
    pub concurrent_order :
        (i j : ℕ)
        → i < j
        → j < c.runtime.nqueue
        → IsNew (c.runtime.queue i)
        → IsNew (c.runtime.queue j)
        → sequential c (c.runtime.queue i).sid ≡ false
        → sequential c (c.runtime.queue j).sid ≡ false
        → (curr_time < (scheduled curr_time c i).st)
          × ((scheduled curr_time c i).st < (scheduled curr_time c j).st)
          × ((scheduled curr_time c j).st ≤ curr_time + 1 + c.runtime.nqueue)
    concurrent_order i j h k ni nj qi qj =
        let low = start-low (omega arith) (omega arith) in
        let r = (rounds_order i j h k ni nj).1 qi qj (omega arith) in
        (omega arith, omega arith, omega arith)

    -- A new element gets a start time that lies ahead.
    scheduled-ahead :
        (i : ℕ)
        → i < c.runtime.nqueue
        → IsNew (c.runtime.queue i)
        → curr_time < (scheduled curr_time c i).st
    unfolding start_cursor
    scheduled-ahead i h ni =
        let n = c.runtime.nqueue in
        let sq = sequential c in
        let s0 = start_cursor curr_time c in
        let low = start-low (omega arith) (omega arith) in
        elim (Bool-cases (sequential c (c.runtime.queue i).sid)) [
          | inl qi ↦ rw scheduled-at (
              omega (
                arith,
                low,
                final_seq sq d s0 n i h ni qi (omega (arith, low)),
                load_mono sq d s0 i n (omega arith),
                seq_bounds sq d s0 i (omega (arith, low, load_mono sq d s0 i n (omega arith))),
              ))
          | inr qi ↦ rw scheduled-at (
              omega (
                arith,
                low,
                final_con sq d s0 n i h ni qi (omega (arith, low)),
                con_bounds sq d s0 i (omega (arith, low)),
              ))
        ]

-- What a round, and so the loop, leaves alone of the element at index j.
abbrev Kept : Element → Element → Type 0
Kept e e' = (e'.dur ≡ e.dur) × (e'.sid ≡ e.sid) × (e'.pid ≡ e.pid) × (¬ IsNew e → e' ≡ e)

place-Kept :
    (is_seq : ℕ → Bool) (z : ℤ) (i j : ℕ) (k : Cursor)
    → Kept (k.queue j) ((place is_seq z i k).queue j)
unfolding place update
place-Kept is_seq z i j k = (
  ground arith,
  ground arith,
  ground arith,
  λ h. elim (ℕ_discrete (k.queue i).st 0) [
    | no p ↦ ground arith
    | yes p ↦ elim (ℕ_discrete (k.queue i).dur 0) [
      | yes q ↦ ground arith
      | no q ↦ elim (ℕ_discrete j i) [ yes e ↦ absurd (h (rw e (p, q))) | no ne ↦ ground arith ]
    ]
  ],
)

replay-Kept :
    (is_seq : ℕ → Bool) (z : ℤ) (n j : ℕ) (k : Cursor)
    → Kept (k.queue j) ((replay n (place is_seq z) k).queue j)
replay-Kept is_seq z zero j k = (refl, refl, refl, λ h. refl)
replay-Kept is_seq z (suc n) j k =
    let ih = replay-Kept is_seq z n j k in
    let step = place-Kept is_seq z n j (replay n (place is_seq z) k) in
    (
      step.0 ∙ ih.0,
      step.1 ∙ ih.1,
      step.2 ∙ ih.2,
      λ h. step.3 (subst (λ e. ¬ IsNew e) (sym (ih.3 h)) h) ∙ ih.3 h,
    )

replay-behind :
    (is_seq : ℕ → Bool) (z : ℤ) (n j : ℕ) (k : Cursor)
    → n ≤ j
    → (replay n (place is_seq z) k).queue j ≡ k.queue j
unfolding place update
replay-behind is_seq z zero j k h = refl
replay-behind is_seq z (suc n) j k h =
    let ne : j ≢ n = λ e. absurd (omega (arith, e)) in
    ground (arith, replay-behind is_seq z n j k (omega arith), ==_ne j n ne)

-- The scheduler writes start times of new queued elements and nothing else of the runtime data: an
-- element that has a start time, or whose water time is 0, stays as it is, every element keeps
-- station, program and water time, and the slots behind the queue, the number of elements, the links
-- and the last stop time stay.
pub schedule_keeps :
    (curr_time : ℕ) (c : Controller) (i : ℕ)
    → ((scheduled curr_time c i).dur ≡ (c.runtime.queue i).dur)
      × ((scheduled curr_time c i).sid ≡ (c.runtime.queue i).sid)
      × ((scheduled curr_time c i).pid ≡ (c.runtime.queue i).pid)
      × (¬ IsNew (c.runtime.queue i) → scheduled curr_time c i ≡ c.runtime.queue i)
      × ((schedule_all_stations curr_time c).runtime.nqueue ≡ c.runtime.nqueue)
      × ((schedule_all_stations curr_time c).runtime.station_qid ≡ c.runtime.station_qid)
      × (c.runtime.nqueue ≤ i → scheduled curr_time c i ≡ c.runtime.queue i)
      × ((schedule_all_stations curr_time c).runtime.last_seq_stop_time
          ≡ c.runtime.last_seq_stop_time)
unfolding start_cursor
schedule_keeps curr_time c i =
    let r = schedule-runtime curr_time c in
    let k = replay-Kept (sequential c) (delay_of c) c.runtime.nqueue i (start_cursor curr_time c) in
    let e = ap (λ x. x.queue i) r in
    (
      ap (λ x. x.dur) e ∙ k.0,
      ap (λ x. x.sid) e ∙ k.1,
      ap (λ x. x.pid) e ∙ k.2,
      λ h. e ∙ k.3 h,
      ap (λ x. x.nqueue) r,
      ap (λ x. x.station_qid) r,
      λ behind.
          e
          ∙ replay-behind (sequential c) (delay_of c) c.runtime.nqueue i (start_cursor curr_time c)
              behind,
      ap (λ x. x.last_seq_stop_time) r,
    )

-- What the scheduler does to slot i of the queue, and to the rest of the runtime data, where the
-- station delay is not negative and the times that all queued elements together can reach stay below
-- 2^32: a queued element that is new (it has a water time and no start time) gets a start time after
-- the current time; any other element and the slots behind the queue stay as they are; station,
-- program, water time, the number of elements, the links and the last stop time stay.
pub schedule_all_stations_lem :
    (curr_time d i : ℕ) (c : Controller)
    → water_time_decode_signed (c.options option_station_delay_time) ≡ pos d
    → max (curr_time + 1) (c.runtime.last_seq_stop_time + d)
        + load d c.runtime.queue c.runtime.nqueue
        + c.runtime.nqueue
      < ulong_mod
    → let r = (schedule_all_stations curr_time c).runtime in
      (i < c.runtime.nqueue → IsNew (c.runtime.queue i) → curr_time < (r.queue i).st)
      × (¬ IsNew (c.runtime.queue i) → r.queue i ≡ c.runtime.queue i)
      × (c.runtime.nqueue ≤ i → r.queue i ≡ c.runtime.queue i)
      × ((r.queue i).dur ≡ (c.runtime.queue i).dur)
      × ((r.queue i).sid ≡ (c.runtime.queue i).sid)
      × ((r.queue i).pid ≡ (c.runtime.queue i).pid)
      × (r.nqueue ≡ c.runtime.nqueue)
      × (r.station_qid ≡ c.runtime.station_qid)
      × (r.last_seq_stop_time ≡ c.runtime.last_seq_stop_time)
schedule_all_stations_lem curr_time d i c delay room =
    let k = schedule_keeps curr_time c i in
    (
      λ lt new. scheduled-ahead curr_time c d delay room i lt new,
      k.3,
      k.6,
      k.0,
      k.1,
      k.2,
      k.4,
      k.5,
      k.7,
    )
