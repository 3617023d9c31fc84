-- ===== src/Scheduler/Stopping.antt =====
-- The end of runs: `turn_off_station` of firmware/main.cpp.
use mathlib.Core.List.{Perm}
use indigo_open_sprinkler_pl.Common.{
  ℕ, ◌/◌, ◌<◌, ◌≡◌, ◌≢◌, ◌≤◌, sym, refl, ◌∙◌, subst, ap, leb-true, arith, Bool, true, false, not,
  ◌&&◌, if◌then◌else◌, ltb, leb, ◌==◌, ◌∷◌, bit_test,
}
use indigo_open_sprinkler_pl.Common.Int.{ℤ}
use indigo_open_sprinkler_pl.Runtime.{Element, queued, release, unlinked, max_num_stations}
use indigo_open_sprinkler_pl.Runtime.Removal.{release-queued}
use indigo_open_sprinkler_pl.Runtime.Links.{IsConsistent, release-IsConsistent, release_self}
use indigo_open_sprinkler_pl.Controller.{Controller, write_log, push_message, MessageType}
use indigo_open_sprinkler_pl.Controller.OptionIndex.{option_enable_logging}
use indigo_open_sprinkler_pl.Controller.Stations.{set_station_bit, station_on}
use indigo_open_sprinkler_pl.Controller.Stations.Bits.{AreBytes, station_on-set}
use indigo_open_sprinkler_pl.Controller.Stations.Frame.{
  Frame, RunFrame, RunFrame-trans, set_station_bit-RunFrame,
}
use indigo_open_sprinkler_pl.Scheduler.{is_master, record_run, turn_off_station}

leb-false : (a b : ℕ) → b < a → leb a b ≡ false
leb-false a b h = ground arith

record_run-RunFrame :
    (sid curr_time : ℕ) (q : Element) (c : Controller) → RunFrame c (record_run sid curr_time q c)
unfolding record_run write_log push_message
record_run-RunFrame sid curr_time q c = ground arith

record_run-bits :
    (sid curr_time : ℕ) (q : Element) (c : Controller)
    → (record_run sid curr_time q c).station_bits ≡ c.station_bits
unfolding record_run write_log push_message
record_run-bits sid curr_time q c = ground arith

-- The state in `turn_off_station` after the bit is reset, and after the run is recorded.
abbrev off : ℕ → Controller → Controller
off sid c = (set_station_bit sid false c).0

abbrev recorded : ℕ → ℕ → Controller → Controller
recorded sid curr_time c =
    record_run sid curr_time ((off sid c).runtime.queue ((off sid c).runtime.station_qid sid))
      (off sid c)

recorded-RunFrame : (sid curr_time : ℕ) (c : Controller) → RunFrame c (recorded sid curr_time c)
recorded-RunFrame sid curr_time c =
    RunFrame-trans (set_station_bit-RunFrame sid false c)
      (record_run-RunFrame sid curr_time _ (off sid c))

-- The queue after `turn_off_station`.
pub turn_off_station-runtime :
    (sid curr_time : ℕ) (c : Controller)
    → (turn_off_station sid curr_time c).runtime ≡ (
        if leb c.runtime.nqueue (c.runtime.station_qid sid)
        then c.runtime
        else release sid c.runtime)
unfolding turn_off_station
turn_off_station-runtime sid curr_time c = ground (
  arith,
  (set_station_bit-RunFrame sid false c).runtime_same,
  (recorded-RunFrame sid curr_time c).runtime_same,
)

pub turn_off_station-Frame :
    (sid curr_time : ℕ) (c : Controller) → Frame c (turn_off_station sid curr_time c)
unfolding turn_off_station
turn_off_station-Frame sid curr_time c =
    ground (
      arith,
      (set_station_bit-RunFrame sid false c).frame,
      (recorded-RunFrame sid curr_time c).frame,
    )

pub turn_off_station-bits :
    (sid curr_time : ℕ) (c : Controller)
    → (turn_off_station sid curr_time c).station_bits ≡ (set_station_bit sid false c).0.station_bits
unfolding turn_off_station
turn_off_station-bits sid curr_time c = ground (
  arith,
  record_run-bits sid curr_time ((off sid c).runtime.queue ((off sid c).runtime.station_qid sid))
      (off sid c),
)

-- Turning off a station leaves the queue and its links consistent.
pub turn_off_station-IsConsistent :
    (sid curr_time : ℕ) (c : Controller)
    → sid < max_num_stations
    → IsConsistent c.runtime
    → IsConsistent (turn_off_station sid curr_time c).runtime
turn_off_station-IsConsistent sid curr_time c h k =
    subst IsConsistent (sym (turn_off_station-runtime sid curr_time c))
      (split (leb c.runtime.nqueue (c.runtime.station_qid sid)))
  where
    split : (b : Bool) → IsConsistent (if b then c.runtime else release sid c.runtime)
    split true = k
    split false = release-IsConsistent sid c.runtime h k

-- The queued elements after `turn_off_station`: the station's is gone, and no other, or, if there is
-- none, the queue is as it was.
pub turn_off_station-queued :
    (sid curr_time : ℕ) (c : Controller)
    → let r = c.runtime in
      let r' = (turn_off_station sid curr_time c).runtime in
      (r.station_qid sid < r.nqueue → Perm (queued r) (r.queue (r.station_qid sid) ∷ queued r'))
      × (r.nqueue ≤ r.station_qid sid → r' ≡ r)
turn_off_station-queued sid curr_time c =
    let r = c.runtime in
    let e = turn_off_station-runtime sid curr_time c in
    (
      λ lt.
          let f : (turn_off_station sid curr_time c).runtime ≡ release sid r =
            e ∙ rw (leb-false r.nqueue (r.station_qid sid) lt) refl in
          rw f (release-queued sid r lt),
      λ le. e ∙ rw (leb-true r.nqueue (r.station_qid sid) le) refl,
    )

-- After `turn_off_station`, in a consistent queue and with valve bits that are bytes: the valve bit of
-- the station is off and those of all others are as they were, the station is linked to no element,
-- and the queue has lost exactly the element that the station was linked to, up to the order of the
-- others; if it was linked to none, the queue is as it was.
pub turn_off_station_lem :
    (sid curr_time : ℕ) (c : Controller)
    → AreBytes c
    → sid < max_num_stations
    → IsConsistent c.runtime
    → ((j : ℕ)
        → station_on (turn_off_station sid curr_time c) j
          ≡ (if j == sid then false else station_on c j))
      × ((turn_off_station sid curr_time c).runtime.station_qid sid ≡ unlinked)
      × (c.runtime.station_qid sid ≢ unlinked
          → Perm (queued c.runtime) (
              c.runtime.queue (c.runtime.station_qid sid)
              ∷ queued (turn_off_station sid curr_time c).runtime))
      × (c.runtime.station_qid sid ≡ unlinked
          → (turn_off_station sid curr_time c).runtime ≡ c.runtime)
turn_off_station_lem sid curr_time c bytes h k = (
  λ j.
      ap (λ f. bit_test (f (j / 8)) j) (turn_off_station-bits sid curr_time c)
      ∙ station_on-set sid false c j bytes,
  linked,
  λ own. (turn_off_station-queued sid curr_time c).0 (ground (arith, k.links sid h)),
  λ none. (turn_off_station-queued sid curr_time c).1 (omega (arith, k.bounded)),
)
  where
    linked : (turn_off_station sid curr_time c).runtime.station_qid sid ≡ unlinked
    linked = ground (
      arith,
      turn_off_station-runtime sid curr_time c,
      release_self sid c.runtime,
      k.links sid h,
      k.bounded,
    )

push_message-log :
    (type : MessageType) (lval : ℕ) (fval : ℤ) (c : Controller)
    → (push_message type lval fval c).log ≡ c.log
unfolding push_message
push_message-log type lval fval c = ground arith

-- Whether a run is logged: the station is linked to a queued element, that element's start time has
-- passed, the station is no master and logging is enabled.
abbrev pub is_logged : ℕ → ℕ → Controller → Bool
is_logged sid curr_time c =
    let q = c.runtime.queue (c.runtime.station_qid sid) in
    ltb (c.runtime.station_qid sid) c.runtime.nqueue
    && (ltb q.st curr_time && (not (is_master c sid) && not (c.options option_enable_logging == 0)))
