-- ===== src/MainLoop/Keeping.antt =====
-- Time keeping of one station, and the last stop time of the sequential stations.
use mathlib.Core.List.{Perm}
use indigo_open_sprinkler_pl.Common.{
  ℕ, zero, suc, ◌≤◌, ◌<◌, ◌≡◌, ◌≢◌, ◌⊎◌, inl, inr, refl, sym, subst, ◌∷◌, ◌∙◌, ap, arith, true,
  false, ◌&&◌, ltb, leb, ◌==◌, ==_ne, if◌then◌else◌, bit_test, ℕ_discrete, Bool-cases, lt→ltb,
}
use indigo_open_sprinkler_pl.Runtime.{Element, queued, max_num_stations, unlinked}
use indigo_open_sprinkler_pl.Runtime.Links.{IsConsistent}
use indigo_open_sprinkler_pl.Controller.{Controller, stop_time}
use indigo_open_sprinkler_pl.Controller.Stations.{station_on, set_station_bit}
use indigo_open_sprinkler_pl.Controller.Stations.Bits.{AreBytes, station_on-set}
use indigo_open_sprinkler_pl.Scheduler.{is_master, turn_off_station, sequential}
use indigo_open_sprinkler_pl.Scheduler.Stopping.{turn_off_station_lem}
use indigo_open_sprinkler_pl.MainLoop.{keep_time, turn_on, last_stop}

leb-true : (a b : ℕ) → a ≤ b → leb a b ≡ true
leb-true a b h = ground arith

leb-false : (a b : ℕ) → b < a → leb a b ≡ false
leb-false a b h = ground arith

module _ (t sid : ℕ) (c : Controller) (valve : is_master c sid ≡ false)
    (linked : c.runtime.station_qid sid ≢ unlinked) where
  abbrev own : Element
  own = c.runtime.queue (c.runtime.station_qid sid)

  kept :
      (v : ℕ)
      → keep_time t v sid c
        ≡ turn_on t
            (c.runtime.station_qid sid)
            (bit_test v sid)
            sid
            (if ltb 0 own.st && leb (stop_time own) t then turn_off_station sid t c else c)
  unfolding keep_time
  kept v = rw (keep_time, valve, ==_ne (c.runtime.station_qid sid) unlinked linked)

  kept_over :
      (v : ℕ)
      → 0 < own.st
      → stop_time own ≤ t
      → bit_test v sid ≡ true
      → keep_time t v sid c ≡ turn_off_station sid t c
  unfolding turn_on
  kept_over v started over on =
      kept v ∙ rw (on, lt→ltb 0 own.st started, leb-true (stop_time own) t over)

  not_over : t < stop_time own → (ltb 0 own.st && leb (stop_time own) t) ≡ false
  not_over more = rw (leb-false (stop_time own) t more) (ground arith)

  kept_more :
      (v : ℕ)
      → t < stop_time own
      → keep_time t v sid c ≡ turn_on t (c.runtime.station_qid sid) (bit_test v sid) sid c
  kept_more v more =
      kept v
      ∙ ap
          (λ b.
            turn_on t (c.runtime.station_qid sid) (bit_test v sid) sid
              (if b then turn_off_station sid t c else c))
          (not_over more)

  kept_running :
      (v : ℕ)
      → own.st ≤ t
      → t < stop_time own
      → keep_time t v sid c ≡ (if bit_test v sid then c else (set_station_bit sid true c).0)
  unfolding turn_on
  kept_running v started more =
      kept_more v more ∙ rw (leb-true own.st t started, lt→ltb t (stop_time own) more)

  kept_waiting : (v : ℕ) → t < own.st → t < stop_time own → keep_time t v sid c ≡ c
  unfolding turn_on
  kept_waiting v wait more = kept_more v more ∙ rw (leb-false own.st t wait) (ground arith)

-- Time keeping of a station that is no master and is linked to a queue element, in a consistent queue,
-- where the valve bits are bytes and the board's byte holds the station's bit. At a time before the
-- start time and the stop time nothing changes. From the start time until before the stop time the
-- station is on afterwards, and the valve bits of all others stay. From the stop time on, if the
-- element has a start time and the station is on, it is turned off and linked to no element, exactly
-- its element leaves the queue, and the valve bits of all others stay.
pub keep_time_lem :
    (t v sid : ℕ) (c : Controller)
    → AreBytes c
    → IsConsistent c.runtime
    → sid < max_num_stations
    → is_master c sid ≡ false
    → c.runtime.station_qid sid ≢ unlinked
    → bit_test v sid ≡ station_on c sid
    → let q = c.runtime.queue (c.runtime.station_qid sid) in
      let c' = keep_time t v sid c in
      (t < q.st → t < stop_time q → c' ≡ c)
      × (q.st ≤ t
          → t < stop_time q
          → (j : ℕ) → station_on c' j ≡ (if j == sid then true else station_on c j))
      × (0 < q.st
          → stop_time q ≤ t
          → station_on c sid ≡ true
          → ((j : ℕ) → station_on c' j ≡ (if j == sid then false else station_on c j))
            × (c'.runtime.station_qid sid ≡ unlinked)
            × Perm (queued c.runtime) (q ∷ queued c'.runtime))
keep_time_lem t v sid c bytes consistent h valve linked bit = (
  λ wait more. kept_waiting t sid c valve linked v wait more,
  λ started more j. elim (Bool-cases (bit_test v sid)) [
    | inl on ↦
        ap (λ d. station_on d j) (kept_running t sid c valve linked v started more)
        ∙ rw on (elim (ℕ_discrete j sid) [
          | yes e ↦ ground (arith, ap (station_on c) e)
          | no ne ↦ ground arith
        ])
    | inr off ↦
        ap (λ d. station_on d j) (kept_running t sid c valve linked v started more)
        ∙ rw off (station_on-set sid true c j bytes)
  ],
  λ started over on.
      let e = kept_over t sid c valve linked v started over (bit ∙ on) in
      let r = turn_off_station_lem sid t c bytes h consistent in
      (
        λ j. ap (λ d. station_on d j) e ∙ r.0 j,
        ap (λ d. d.runtime.station_qid sid) e ∙ r.1,
        subst
            (λ d.
              Perm (queued c.runtime)
                (c.runtime.queue (c.runtime.station_qid sid) ∷ queued d.runtime))
            (sym e) (r.2 linked),
      ),
)

-- A stop time of a sequential element, among the first n, that lies ahead.
abbrev pub IsAhead : ℕ → Controller → ℕ → ℕ → Type 0
IsAhead t c n i =
    let q = c.runtime.queue i in (i < n) × (t < stop_time q) × (sequential c q.sid ≡ true)

last_stop_bound :
    (t : ℕ) (c : Controller) (n i : ℕ)
    → IsAhead t c n i
    → stop_time (c.runtime.queue i) ≤ last_stop t c n
unfolding last_stop
last_stop_bound t c zero i h = absurd (omega (arith, h.0))
last_stop_bound t c (suc n) i h = elim (ℕ_discrete i n) [
  | yes e ↦
      let now = ap (λ k. stop_time (c.runtime.queue k)) e in
      let seq = ap (λ k. sequential c (c.runtime.queue k).sid) e in
      rw (sym seq ∙ h.2, lt→ltb t (stop_time (c.runtime.queue n)) (omega (arith, now, h.1)))
        (ground (arith, now))
  | no ne ↦ ground (arith, last_stop_bound t c n i (omega (arith, h.0), h.1, h.2))
]

last_stop_attained :
    (t : ℕ) (c : Controller) (n : ℕ)
    → (last_stop t c n ≡ 0)
      ⊎ ((i : ℕ) × IsAhead t c n i × (last_stop t c n ≡ stop_time (c.runtime.queue i)))
unfolding last_stop
last_stop_attained t c zero = inl refl
last_stop_attained t c (suc n) =
    elim (Bool-cases (
      (ltb t (stop_time (c.runtime.queue n)) && sequential c (c.runtime.queue n).sid)
      && ltb (last_stop t c n) (stop_time (c.runtime.queue n)))) [
        | inl new ↦ inr (n, (omega arith, ground arith, ground arith), ground arith)
        | inr old ↦ elim (last_stop_attained t c n) [
          | inl e ↦ inl (ground arith)
          | inr (i, a, e) ↦ inr (i, (omega (arith, a.0), a.1, a.2), ground (arith, e))
        ]
      ]

-- The last stop time is that of the sequential element that stops last, among those that stop after
-- the current time: none of them stops later, and it is 0 or the stop time of one of them.
last_stop_lem :
    (t : ℕ) (c : Controller) (n : ℕ)
    → ((i : ℕ) → IsAhead t c n i → stop_time (c.runtime.queue i) ≤ last_stop t c n)
      × ((last_stop t c n ≡ 0)
          ⊎ ((i : ℕ) × IsAhead t c n i × (last_stop t c n ≡ stop_time (c.runtime.queue i))))
last_stop_lem t c n = (last_stop_bound t c n, last_stop_attained t c n)
