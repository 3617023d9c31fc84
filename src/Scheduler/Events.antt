-- ===== src/Scheduler/Events.antt =====
-- Rain and a disabled controller: `process_dynamic_events` of firmware/main.cpp.
use mathlib.Core.List.{Perm}
use mathlib.Core.List.Perm
use indigo_open_sprinkler_pl.Common.{
  refl, List, [], ◌∷◌, ◌++◌, true, ◌≢◌, subst, ℕ, zero, suc, ◌*◌, ◌/◌, ◌≤◌, ◌<◌, ◌≡◌, inl, inr, ◌∙◌,
  ap, arith, Bool, false, not, ◌&&◌, ◌||◌, bit_test, if◌then◌else◌, ltb, leb, ◌==◌, replay,
  Bool-cases, none, some,
}
use indigo_open_sprinkler_pl.Runtime.{Element, Runtime, queued, unlinked, max_num_stations}
use indigo_open_sprinkler_pl.Runtime.Links.{IsConsistent, current, current-release}
use indigo_open_sprinkler_pl.Controller.{Controller}
use indigo_open_sprinkler_pl.Controller.Stations.{station_on}
use indigo_open_sprinkler_pl.Controller.Stations.Bits.{AreBytes, set_station_bit-AreBytes}
use indigo_open_sprinkler_pl.Controller.Stations.Frame.{Frame, Frame-refl, Frame-trans}
use indigo_open_sprinkler_pl.Scheduler.{
  is_master, turn_off_station, is_raining, must_stop, process_dynamic_events,
}
use indigo_open_sprinkler_pl.Scheduler.Stopping.{
  turn_off_station-runtime, turn_off_station-Frame, turn_off_station-bits,
  turn_off_station-IsConsistent, turn_off_station_lem,
}

-- A controller whose queue is consistent and whose bits are bytes.
pub record IsSound (c : Controller) : Type 0 where
  pub consistent : IsConsistent c.runtime
  pub bytes : AreBytes c

pub turn_off_station-IsSound :
    (sid t : ℕ) (c : Controller)
    → sid < max_num_stations
    → IsSound c
    → IsSound (turn_off_station sid t c)
turn_off_station-IsSound sid t c h v = record {
  consistent = turn_off_station-IsConsistent sid t c h v.consistent;
  bytes = rw (turn_off_station-bits sid t c) (set_station_bit-AreBytes sid false c v.bytes);
}

pub current-turn_off :
    (sid s t : ℕ) (c : Controller)
    → IsConsistent c.runtime
    → sid < max_num_stations
    → s < max_num_stations
    → current (turn_off_station sid t c).runtime s
      ≡ (if s == sid then none else current c.runtime s)
current-turn_off sid s t c v h k =
    elim (Bool-cases (leb c.runtime.nqueue (c.runtime.station_qid sid))) [
      | inl e ↦
          rw (turn_off_station-runtime sid t c, e)
            (ground (arith, v.links sid h, v.bounded, ap c.runtime.station_qid))
      | inr e ↦ rw (turn_off_station-runtime sid t c, e) (current-release sid s c.runtime v h k)
    ]

-- The test on a station looks at its own element, and at nothing that stopping changes.
must_stop-eq :
    (en rain : Bool) (s : ℕ) (c c' : Controller)
    → Frame c c'
    → current c'.runtime s ≡ current c.runtime s
    → must_stop en rain s c' ≡ must_stop en rain s c
unfolding must_stop
must_stop-eq en rain s c c' f e = ground (arith, f.status_same, f.attributes_same)

module _ (en rain : Bool) (t : ℕ) (c : Controller) (sound : IsSound c) where
  -- The loop of `process_dynamic_events` after n rounds.
  abbrev after : ℕ → Controller
  after n = replay n (λ sid s. if must_stop en rain sid s then turn_off_station sid t s else s) c

  round : ℕ → Controller → Controller
  round sid s = if must_stop en rain sid s then turn_off_station sid t s else s

  round-IsSound : (n : ℕ) (d : Controller) → n < max_num_stations → IsSound d → IsSound (round n d)
  unfolding round
  round-IsSound n d h v = elim (Bool-cases (must_stop en rain n d)) [
    | inl e ↦ rw e (turn_off_station-IsSound n t d h v)
    | inr e ↦ rw e v
  ]

  round-Frame : (n : ℕ) (d : Controller) → Frame d (round n d)
  unfolding round
  round-Frame n d = elim (Bool-cases (must_stop en rain n d)) [
    | inl e ↦ rw e (turn_off_station-Frame n t d)
    | inr e ↦ rw e (Frame-refl d)
  ]

  after-IsSound : (n : ℕ) → n ≤ max_num_stations → IsSound (after n)
  unfolding round
  after-IsSound zero h = sound
  after-IsSound (suc n) h = round-IsSound n (after n) h (after-IsSound n (omega arith))

  after-Frame : (n : ℕ) → Frame c (after n)
  unfolding round
  after-Frame zero = Frame-refl c
  after-Frame (suc n) = Frame-trans (after-Frame n) (round-Frame n (after n))

  round-outcome :
      (n s : ℕ) (d : Controller)
      → n < max_num_stations
      → s < max_num_stations
      → IsSound d
      → (current (round n d).runtime s
          ≡ (if (s == n) && must_stop en rain n d then none else current d.runtime s))
        × (station_on (round n d) s
            ≡ (if (s == n) && must_stop en rain n d then false else station_on d s))
  unfolding round
  round-outcome n s d h k v = elim (Bool-cases (must_stop en rain n d)) [
    | inl e ↦ rw e (
      current-turn_off n s t d v.consistent h k ∙ ground arith,
      (turn_off_station_lem n t d v.bytes h v.consistent).0 s ∙ ground arith,
    )
    | inr e ↦ rw e (ground arith, ground arith)
  ]

  -- What becomes of station s in the rounds up to n.
  abbrev Outcome : ℕ → ℕ → Type 0
  Outcome n s =
      (current (after n).runtime s
        ≡ (if ltb s n && must_stop en rain s c then none else current c.runtime s))
      × (station_on (after n) s
          ≡ (if ltb s n && must_stop en rain s c then false else station_on c s))

  outcome : (n s : ℕ) → n ≤ max_num_stations → s < max_num_stations → Outcome n s
  unfolding round
  outcome zero s h k = (ground arith, ground arith)
  outcome (suc n) s h k =
      let d = after n in
      let ih = outcome n s (omega arith) k in
      let own =
        must_stop-eq en rain n c d (after-Frame n)
          ((outcome n n (omega arith) h).0 ∙ ground arith) in
      let step = round-outcome n s d h k (after-IsSound n (omega arith)) in
      (step.0 ∙ ground (arith, ih.0, own), step.1 ∙ ground (arith, ih.1, own))

-- The stations below n that are stopped, as the elements that they are linked to.
abbrev pub removed : (ℕ → Bool) → Controller → ℕ → List Element
removed stops c zero = []
removed stops c (suc n) =
    if stops n
    then c.runtime.queue (c.runtime.station_qid n) ∷ removed stops c n
    else removed stops c n

removed-eq :
    (f g : ℕ → Bool) (c : Controller) (n : ℕ)
    → ((s : ℕ) → f s ≡ g s)
    → removed f c n ≡ removed g c n
removed-eq f g c zero h = refl
removed-eq f g c (suc n) h = rw (h n, removed-eq f g c n h)

-- An element in the middle of a list.
middle : (x : Element) (xs ys : List Element) → Perm (xs ++ (x ∷ ys)) (x ∷ (xs ++ ys))
middle x [] ys = Perm.refl _
middle x (z ∷ xs) ys = Perm.trans (Perm.cons z (middle x xs ys)) (Perm.swap _ _ _)

must_stop-linked :
    (en rain : Bool) (s : ℕ) (c : Controller)
    → must_stop en rain s c ≡ true
    → c.runtime.station_qid s ≢ unlinked
unfolding must_stop
must_stop-linked en rain s c h = ground arith

current-queue :
    (r r' : Runtime) (s : ℕ)
    → r.station_qid s ≢ unlinked
    → current r' s ≡ current r s
    → (r'.station_qid s ≢ unlinked) × (r'.queue (r'.station_qid s) ≡ r.queue (r.station_qid s))
current-queue r r' s ne e = ground arith

module _ (en rain : Bool) (t : ℕ) (c : Controller) (sound : IsSound c) where
  -- What the rounds up to n take out of the queue.
  pub after-queued :
      (n : ℕ)
      → n ≤ max_num_stations
      → Perm
          (queued c.runtime)
          (removed (λ s. must_stop en rain s c) c n ++ queued (after en rain t c sound n).runtime)
  after-queued zero h = Perm.refl _
  after-queued (suc n) h =
      let le : n ≤ max_num_stations = omega arith in
      let d = after en rain t c sound n in
      let now : current d.runtime n ≡ current c.runtime n =
        (outcome en rain t c sound n n le h).0 ∙ ground arith in
      let own : must_stop en rain n d ≡ must_stop en rain n c =
        must_stop-eq en rain n c d (after-Frame en rain t c sound n) now in
      let fine = after-IsSound en rain t c sound n le in
      elim (Bool-cases (must_stop en rain n c)) [
        | inr e ↦ rw (e, own ∙ e) (after-queued n le)
        | inl e ↦
            let out = removed (λ s. must_stop en rain s c) c n in
            let own_element =
              current-queue c.runtime d.runtime n (must_stop-linked en rain n c e) now in
            let gone = (turn_off_station_lem n t d fine.bytes h fine.consistent).2 own_element.0 in
            rw (e, own ∙ e)
              (Perm.trans (after-queued n le) (
                Perm.trans (Perm.append_left out gone)
                  (Perm.trans (middle _ out _) (rw own_element.1 (Perm.refl _)))))
      ]

-- What the events are meant to stop: a station that is no master and has an element of a normal
-- program, while the controller is off, or in rain that the station does not ignore.
abbrev pub is_stopped : Controller → ℕ → Bool
is_stopped c s =
    let wet = is_raining c && not (bit_test (c.attributes.ignrain (s / 8)) s) in
    let normal : Bool = elim (current c.runtime s) [ none ↦ false | some q ↦ ltb q.pid 99 ] in
    (not (is_master c s) && normal) && (wet || not c.status.enabled)

must_stop-is_stopped :
    (c : Controller) (s : ℕ) → must_stop c.status.enabled (is_raining c) s c ≡ is_stopped c s
unfolding must_stop
must_stop-is_stopped c s = ground arith

-- In a consistent controller with at most 7 boards, of each station on the boards: it loses its
-- link to its queue element and its valve bit is reset if the element is that of a normal program
-- (number below 99) and the controller is disabled, or it rains and the station does not ignore rain,
-- unless it is a master; every other station keeps its element and its valve bit. Exactly the
-- elements that the stopped stations were linked to leave the queue, up to the order of the others.
-- The controller stays consistent.
pub process_dynamic_events_lem :
    (curr_time : ℕ) (c : Controller) (s : ℕ)
    → IsSound c
    → c.nboards * 8 ≤ max_num_stations
    → s < c.nboards * 8
    → let c' = process_dynamic_events curr_time c in
      IsSound c'
      × (current c'.runtime s ≡ (if is_stopped c s then none else current c.runtime s))
      × (station_on c' s ≡ (if is_stopped c s then false else station_on c s))
      × Perm (queued c.runtime) (removed (is_stopped c) c (c.nboards * 8) ++ queued c'.runtime)
unfolding process_dynamic_events
process_dynamic_events_lem curr_time c s v h k =
    let en = c.status.enabled in
    let rain = is_raining c in
    let o = outcome en rain curr_time c v (c.nboards * 8) s h (omega arith) in
    let e = must_stop-is_stopped c s in
    (
      after-IsSound en rain curr_time c v (c.nboards * 8) h,
      o.0 ∙ ground (arith, e),
      o.1 ∙ ground (arith, e),
      subst
          (λ xs.
            Perm (queued c.runtime) (xs ++ queued (process_dynamic_events curr_time c).runtime))
          (removed-eq _ _ c (c.nboards * 8) (must_stop-is_stopped c))
          (after-queued en rain curr_time c v (c.nboards * 8) h),
    )

-- The events leave settings, attributes and programs alone.
pub process_dynamic_events-Frame :
    (curr_time : ℕ) (c : Controller) → IsSound c → Frame c (process_dynamic_events curr_time c)
unfolding process_dynamic_events
process_dynamic_events-Frame curr_time c v =
    after-Frame c.status.enabled (is_raining c) curr_time c v (c.nboards * 8)
