-- ===== src/Scheduler/Manual.antt =====
-- Resetting all stations, and the queue that a manually started program sets up.
use indigo_open_sprinkler_pl.Common.{
  ℕ, zero, suc, ◌*◌, ◌==◌, ◌-◌, ◌/◌, ◌%◌, ◌≤◌, ◌<◌, ◌≡◌, inl, inr, refl, sym, ◌∙◌, subst, ap, arith,
  Bool, true, false, not, ◌&&◌, if◌then◌else◌, ltb, replay, Bool-cases, List, [], ◌∷◌, map,
  bit_test, some,
}
use indigo_open_sprinkler_pl.WaterTime.{water_time_resolve}
use indigo_open_sprinkler_pl.Runtime.{
  Element, Runtime, enqueue, fill, queued, elements, unlinked, max_num_stations, runtime_queue_size,
  reset_runtime,
}
use indigo_open_sprinkler_pl.Runtime.Links.{
  IsConsistent, reset_runtime-IsConsistent, enqueue-IsConsistent,
}
use indigo_open_sprinkler_pl.Runtime.Removal.{enqueue-queued, enqueue-nqueue, key, keys-eq}
use indigo_open_sprinkler_pl.Common.Int.{pos}
use indigo_open_sprinkler_pl.Controller.{Controller, push_message, program_sched, now_tz}
use indigo_open_sprinkler_pl.Controller.OptionIndex.{option_water_percentage}
use indigo_open_sprinkler_pl.Controller.Stations.{
  station_on, clear_all_station_bits, apply_all_station_bits, switch_special_station,
}
use indigo_open_sprinkler_pl.Controller.Stations.Bits.{AreBytes, station_on-clear_all}
use indigo_open_sprinkler_pl.Controller.Stations.Frame.{
  Frame, Frame-trans, RunFrame, RunFrame-refl, push_message-RunFrame,
  clear_all_station_bits-RunFrame, apply_all_station_bits-RunFrame, RunFrame-trans,
}
use indigo_open_sprinkler_pl.Scheduler.Starts.{schedule_keeps}
use indigo_open_sprinkler_pl.Scheduler.{
  is_master, disabled, schedule_all_stations, manual_start_program, reset_all_stations,
  reset_all_stations_immediate, add_element, manual_station, manual_water_time,
}

apply_all-bits : (c : Controller) → (apply_all_station_bits c).station_bits ≡ c.station_bits
unfolding apply_all_station_bits switch_special_station
apply_all-bits c = ground arith

-- The immediate reset turns every station off and leaves an empty queue with no links.
pub reset_immediate :
    (c : Controller) (sid : ℕ)
    → AreBytes c
    → sid < max_num_stations
    → (station_on (reset_all_stations_immediate c) sid ≡ false)
      × ((reset_all_stations_immediate c).runtime.nqueue ≡ 0)
      × ((reset_all_stations_immediate c).runtime.station_qid sid ≡ unlinked)
unfolding reset_all_stations_immediate reset_runtime
reset_immediate c sid h k =
    let off = clear_all_station_bits c in
    (
      ap (λ f. bit_test (f (sid / 8)) sid) (apply_all-bits off)
          ∙ station_on-clear_all c sid h
          ∙ ground arith,
      refl,
      ground arith,
    )

-- The other reset keeps the queue but sets the water time of each queued element, and of no other
-- slot, to 0.
pub reset_all_dur :
    (c : Controller) (i : ℕ)
    → ((reset_all_stations c).runtime.queue i).dur
      ≡ (if ltb i c.runtime.nqueue then 0 else (c.runtime.queue i).dur)
unfolding reset_all_stations
reset_all_dur c i = ground arith

-- A station is started by hand: it is no master, has a water time and is not disabled.
selected : ℕ → Bool → Controller → ℕ → Bool
selected pid uwt c sid =
    not (is_master c sid) && (ltb 0 (manual_water_time pid uwt sid c) && not (disabled c sid))

-- The elements for the first n stations, the last one first.
wanted : ℕ → Bool → Controller → ℕ → List Element
wanted pid uwt c zero = []
wanted pid uwt c (suc n) =
    let rest = wanted pid uwt c n in
    if selected pid uwt c n
    then record { st = 0; dur = manual_water_time pid uwt n c % 65536; sid = n; pid = 254 } ∷ rest
    else rest

abbrev is_empty : List Element → Bool
is_empty [] = true
is_empty (x ∷ xs) = false

module _ (pid : ℕ) (uwt : Bool) (c : Controller) where
  abbrev pub loop : ℕ → Controller × Bool
  loop n = replay n (manual_station pid uwt) (c, false)

  -- The state of the loop: only the queue differs from c.
  record IsLoop (n : ℕ) (r : Runtime) (f : Bool) : Type 0 where
    state : loop n ≡ (record c { runtime = r }, f)
    contents : queued r ≡ wanted pid uwt c n
    room : r.nqueue ≤ n
    found : f ≡ not (is_empty (wanted pid uwt c n))
    consistent : IsConsistent r

  abbrev element : ℕ → Element
  element n = record { st = 0; dur = manual_water_time pid uwt n c % 65536; sid = n; pid = 254 }

  abbrev over : Runtime → Controller
  over r = record c { runtime = r }

  round_skips :
      (n : ℕ) (r : Runtime) (f : Bool)
      → selected pid uwt c n ≡ false
      → manual_station pid uwt n (over r, f) ≡ (over r, f)
  unfolding manual_station selected manual_water_time
  round_skips n r f e = ground arith

  round_adds :
      (n : ℕ) (r q : Runtime) (i : ℕ) (f : Bool)
      → selected pid uwt c n ≡ true
      → enqueue r ≡ some (i, q)
      → manual_station pid uwt n (over r, f) ≡ (over (fill i (element n) q), true)
  unfolding manual_station selected manual_water_time add_element
  round_adds n r q i f e h = ground arith

  step :
      (n : ℕ) (r : Runtime) (f : Bool)
      → suc n ≤ runtime_queue_size
      → IsLoop n r f
      → (r' : Runtime) × (f' : Bool) × IsLoop (suc n) r' f'
  unfolding wanted
  step n r f h l = elim (Bool-cases (selected pid uwt c n)) [
    | inr e ↦ (
      r,
      f,
      record {
        state = ap (manual_station pid uwt n) l.state ∙ round_skips n r f e;
        contents = rw e l.contents;
        room = omega (arith, l.room);
        found = rw e l.found;
        consistent = l.consistent;
      },
    )
    | inl e ↦ elim (enqueue-queued r (element n)) [
      | inl (full, _) ↦ absurd (omega (arith, l.room))
      | inr (q, eq, queued_eq, _, _) ↦ (
        fill r.nqueue (element n) q,
        true,
        record {
          state = ap (manual_station pid uwt n) l.state ∙ round_adds n r q r.nqueue f e eq;
          contents = rw e (queued_eq ∙ ap (◌∷◌ (element n)) l.contents);
          room = omega (arith, l.room, enqueue-nqueue r q r.nqueue (element n) eq);
          found = rw e;
          consistent = enqueue-IsConsistent r q r.nqueue (element n) l.consistent eq;
        },
      )
    ]
  ]

  loop_lem :
      (n : ℕ)
      → n ≤ runtime_queue_size
      → c.runtime.nqueue ≡ 0
      → IsConsistent c.runtime
      → (r : Runtime) × (f : Bool) × IsLoop n r f
  unfolding wanted
  loop_lem zero h e v = (
    c.runtime,
    false,
    record { state = refl; contents = rw e; room = omega arith; found = refl; consistent = v },
  )
  loop_lem (suc n) h e v = let (r, f, l) = loop_lem n (omega arith) e v in step n r f h l

selected-eq :
    (pid : ℕ) (uwt : Bool) (c c' : Controller) (n : ℕ)
    → Frame c c'
    → selected pid uwt c' n ≡ selected pid uwt c n
unfolding selected manual_water_time
selected-eq pid uwt c c' n f =
    ground (arith, f.status_same, f.attributes_same, f.options_same, f.nvdata_same, f.programs_same)

manual_water_time-eq :
    (pid : ℕ) (uwt : Bool) (c c' : Controller) (n : ℕ)
    → Frame c c'
    → manual_water_time pid uwt n c' ≡ manual_water_time pid uwt n c
unfolding manual_water_time
manual_water_time-eq pid uwt c c' n f =
    ground (arith, f.options_same, f.nvdata_same, f.programs_same)

wanted-eq :
    (pid : ℕ) (uwt : Bool) (c c' : Controller) (n : ℕ)
    → Frame c c'
    → wanted pid uwt c' n ≡ wanted pid uwt c n
unfolding wanted
wanted-eq pid uwt c c' zero f = refl
wanted-eq pid uwt c c' (suc n) f = rw (
  selected-eq pid uwt c c' n f,
  manual_water_time-eq pid uwt c c' n f,
  wanted-eq pid uwt c c' n f,
)

reset-Frame : (c : Controller) → Frame c (reset_all_stations_immediate c)
unfolding reset_all_stations_immediate
reset-Frame c =
    let f =
      RunFrame-trans (clear_all_station_bits-RunFrame c) (apply_all_station_bits-RunFrame _) in
    ground (arith, f.frame)

-- The state in which the loop starts.
abbrev told : ℕ → Bool → Controller → Controller
told pid uwt c =
    let reset = reset_all_stations_immediate c in
    let level = if uwt then pos (reset.options option_water_percentage) else pos 100 in
    if ltb 0 pid && ltb pid 255 then push_message program_sched (pid - 1) level reset else reset

told-RunFrame :
    (pid : ℕ) (uwt : Bool) (c : Controller)
    → RunFrame (reset_all_stations_immediate c) (told pid uwt c)
told-RunFrame pid uwt c = elim (Bool-cases (ltb 0 pid && ltb pid 255)) [
  | inl e ↦ rw e (push_message-RunFrame _ _ _ _)
  | inr e ↦ rw e (RunFrame-refl _)
]

told-Frame : (pid : ℕ) (uwt : Bool) (c : Controller) → Frame c (told pid uwt c)
told-Frame pid uwt c = Frame-trans (reset-Frame c) (told-RunFrame pid uwt c).frame

told-empty : (pid : ℕ) (uwt : Bool) (c : Controller) → (told pid uwt c).runtime.nqueue ≡ 0
unfolding reset_all_stations_immediate reset_runtime
told-empty pid uwt c = ap (λ r. r.nqueue) (told-RunFrame pid uwt c).runtime_same

told-IsConsistent : (pid : ℕ) (uwt : Bool) (c : Controller) → IsConsistent (told pid uwt c).runtime
unfolding reset_all_stations_immediate
told-IsConsistent pid uwt c =
    subst IsConsistent (sym (told-RunFrame pid uwt c).runtime_same) (reset_runtime-IsConsistent _)

-- The end of every handler that queues elements: the scheduler runs if one was added.
abbrev scheduled_if : Bool → Controller → Controller
scheduled_if found c = if found then schedule_all_stations (now_tz c) c else c

scheduled_if-keys :
    (found : Bool) (c : Controller)
    → map key (queued (scheduled_if found c).runtime) ≡ map key (queued c.runtime)
scheduled_if-keys false c = refl
scheduled_if-keys true c =
    let t = now_tz c in
    let k = schedule_keeps t c in
    ap (λ n. map key (elements (schedule_all_stations t c).runtime.queue n)) (k 0).4
    ∙ keys-eq c.runtime.queue (schedule_all_stations t c).runtime.queue c.runtime.nqueue
        (λ i. ground (arith, (k i).0, (k i).1, (k i).2))

-- The seconds that a station is to run: 60 for the number 0 (test program), 2 for 255 (short test
-- program), and else what the stored program says, whose index is the number less 1.
abbrev pub own_time : ℕ → ℕ → Controller → ℕ
own_time zero sid c = 60
own_time (suc i) sid c =
    if i == 254
    then 2
    else water_time_resolve c.nvdata.sunrise_time c.nvdata.sunset_time
        ((c.programs i).durations sid)

-- And scaled by the percentage of the water level, if that is asked for.
abbrev pub planned_time : ℕ → Bool → ℕ → Controller → ℕ
planned_time pid true sid c =
    ((own_time pid sid c * c.options option_water_percentage) % 4294967296) / 100
planned_time pid false sid c = own_time pid sid c

-- The stations below n, with their seconds, that are to be queued: no masters, with a time, and not
-- disabled; the last one first.
abbrev pub planned : ℕ → Bool → Controller → ℕ → List (ℕ × ℕ × ℕ)
planned pid uwt c zero = []
planned pid uwt c (suc n) =
    let rest = planned pid uwt c n in
    if not (is_master c n)
      && (ltb 0 (planned_time pid uwt n c) && not (bit_test (c.attributes.stndisable (n / 8)) n))
    then (n, planned_time pid uwt n c % 65536, 254) ∷ rest
    else rest

manual_water_time-planned :
    (pid : ℕ) (uwt : Bool) (sid : ℕ) (c : Controller)
    → manual_water_time pid uwt sid c ≡ planned_time pid uwt sid c
unfolding manual_water_time
manual_water_time-planned zero true sid c = ground arith
manual_water_time-planned zero false sid c = ground arith
manual_water_time-planned (suc i) true sid c = ground arith
manual_water_time-planned (suc i) false sid c = ground arith

wanted-planned :
    (pid : ℕ) (uwt : Bool) (c : Controller) (n : ℕ)
    → map key (wanted pid uwt c n) ≡ planned pid uwt c n
unfolding wanted selected
wanted-planned pid uwt c zero = refl
wanted-planned pid uwt c (suc n) =
    ground (arith, manual_water_time-planned pid uwt n c, wanted-planned pid uwt c n)

-- A program that is started by hand on at most 56 stations replaces the queue by exactly one element
-- for each station that is no master, has a water time and is not disabled, in the order of the
-- stations. The water time is 60 seconds in the test program, 2 in the short one, and else that of
-- the stored program, times the water level in percent if that is asked for; the element holds it
-- modulo 2^16, and the program number 254.
pub manual_start_program-queued :
    (pid : ℕ) (uwt : Bool) (c : Controller)
    → c.nstations ≤ max_num_stations
    → map key (queued (manual_start_program pid uwt c).runtime) ≡ planned pid uwt c c.nstations
unfolding manual_start_program
manual_start_program-queued pid uwt c h =
    let t = told pid uwt c in
    let f = told-Frame pid uwt c in
    let (r, found, l) =
      loop_lem pid uwt t t.nstations (rw f.nstations_same h) (told-empty pid uwt c)
        (told-IsConsistent pid uwt c) in
    ap (λ p. map key (queued (scheduled_if p.1 p.0).runtime)) l.state
    ∙ scheduled_if-keys found (record t { runtime = r })
    ∙ ap (map key) l.contents
    ∙ ap (λ n. map key (wanted pid uwt t n)) f.nstations_same
    ∙ ap (map key) (wanted-eq pid uwt c t c.nstations f)
    ∙ wanted-planned pid uwt c c.nstations
