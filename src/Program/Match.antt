-- ===== src/Program/Match.antt =====
-- When a repeating program starts.
use indigo_open_sprinkler_pl.Common.{
  ℕ, ◌+◌, ◌-◌, ◌*◌, ◌/◌, ◌%◌, ◌≤◌, ◌<◌, ◌≡◌, ◌⊎◌, ◌↔◌, inl, inr, sym, ◌∙◌, arith, Bool, true, false,
  some, ◌==◌, ℕ_discrete, ◌&&◌, ◌||◌, not, ltb, if◌then◌else◌,
}
use indigo_open_sprinkler_pl.Common.Int.{pos, ltb_ℤ}
use indigo_open_sprinkler_pl.WaterTime.{ulong_mod}
use indigo_open_sprinkler_pl.Program.{
  int16_of, to_unsigned, ProgramStruct, Tm, divided_by, on_interval, check_day_match, check_match,
  starts_today, over_night, starttime_decode, minute_of, day_before, since,
}

-- `x` is one of the times start, start + every, …, start + repeat * every.
abbrev pub Hits : ℕ → ℕ → ℕ → ℕ → Type 0
Hits start every repeat x = (k : ℕ) × (k ≤ repeat) × (start + k * every ≡ x)

-- The test on the quotient, if the division does not fault.
unfoldable lands : ℕ → ℕ → ℕ → Bool
lands d every repeat =
    let c = int16_of ((d / to_unsigned (pos every)) % 65536) in
    (((to_unsigned c * to_unsigned (pos every)) % ulong_mod) == d) && not (ltb_ℤ (pos repeat) c)

module _ (d every repeat : ℕ) (hd : d < 32768) (he : 0 < every) (hi : every < 32768)
    (hr : repeat < 32768) where
  on_interval-lands : on_interval d (pos every) (pos repeat) ≡ some (lands d every repeat)
  unfolding on_interval divided_by lands
  on_interval-lands = ground arith

  quotient_bounds : (d / every ≤ d) × ((d / every) * every ≤ d)
  quotient_bounds = (grind arith, grind arith)

  lands-hit : lands d every repeat ≡ true → Hits 0 every repeat d
  unfolding lands
  lands-hit h = (d / every, ground (arith, quotient_bounds), ground (arith, quotient_bounds))

  hit-lands : Hits 0 every repeat d → lands d every repeat ≡ true
  unfolding lands
  hit-lands (k, le, e) = let q : d / every ≡ k = grind arith in ground (arith, q, e)

or_cases : (x y : Bool) → (x || y) ≡ true → (x ≡ true) ⊎ (y ≡ true)
or_cases x y h = ground arith

and_left : (x y : Bool) → (x && y) ≡ true → x ≡ true
and_left x y h = ground arith

and_right : (x y : Bool) → (x && y) ≡ true → y ≡ true
and_right x y h = ground arith

some-eq : (x y : Bool) → some x ≡ some y → x ≡ y
some-eq x y h = ground arith

since-pos : (m s : ℕ) → s ≤ m → m < 4294967296 → since m (pos s) ≡ m - s
since-pos m s h k = omega arith

module _ (m s every repeat : ℕ) (hm : m < 1440) (hs : s < 1440) (hi : every < 32768)
    (hr : repeat < 32768) where
  -- Whether a program starts at minute m of the day that it matches.
  unfoldable starting : Bool
  starting =
      if m == s
      then true
      else if ltb s m && not (every == 0)
      then lands (m - s) every repeat
      else false

  starts_today-starting : starts_today m (pos s) (pos repeat) (pos every) ≡ some starting
  unfolding starts_today starting
  starts_today-starting = elim (ℕ_discrete m s) [
    | yes p ↦ ground arith
    | no p ↦ elim (ℕ_discrete every 0) [
      | yes z ↦ ground arith
      | no nz ↦ ground (
        arith,
        since-pos m s,
        on_interval-lands (m - s) every repeat (omega arith) (omega arith) hi hr,
      )
    ]
  ]

  today-hit : starting ≡ true → Hits s every repeat m
  unfolding starting
  today-hit h = elim (ℕ_discrete m s) [
    | yes p ↦ (0, omega arith, omega arith)
    | no p ↦
        let parts : (s < m) × (0 < every) × (lands (m - s) every repeat ≡ true) = ground arith in
        let (k, le, e) = lands-hit (m - s) every repeat (omega arith) parts.1 hi hr parts.2 in
        (k, le, omega arith)
  ]

  hit-today : Hits s every repeat m → starting ≡ true
  unfolding starting
  hit-today (k, le, e) = elim (ℕ_discrete m s) [
    | yes p ↦ ground arith
    | no p ↦
        let positive : 0 < every = grind arith in
        let hit : lands (m - s) every repeat ≡ true =
          hit-lands (m - s) every repeat (omega arith) positive hi hr (k, le, grind arith) in
        let later : s < m = grind arith in ground (arith, hit)
  ]

module _ (gmtime : ℕ → Tm) (p : ProgramStruct) (t s every repeat : ℕ) (b : Bool) (hs : s < 1440)
    (hi : every < 32768) (hr : repeat < 32768) (repeating : p.starttime_type ≡ false)
    (e1 : p.starttimes 1 ≡ repeat) (e2 : p.starttimes 2 ≡ every)
    (yesterday : check_day_match gmtime p (day_before t) ≡ some b) where
  night-value :
      over_night gmtime p t (pos s)
      ≡ some (not (every == 0) && (b && lands (minute_of t + 1440 - s) every repeat))
  unfolding over_night
  night-value =
      let a : int16_of (p.starttimes 2) ≡ pos every = ground arith in
      let c : int16_of (p.starttimes 1) ≡ pos repeat = ground arith in
      let d : (since (minute_of t) (pos s) + 1440) % ulong_mod ≡ minute_of t + 1440 - s =
        omega arith in
      elim (ℕ_discrete every 0) [
        | yes z ↦ ground (arith, a, c)
        | no nz ↦ ground (
          arith,
          a,
          c,
          d,
          on_interval-lands (minute_of t + 1440 - s) every repeat (omega arith) (omega arith) hi hr,
        )
      ]

  module _ (rise set : ℕ) (a : Bool) (enabled : p.enabled ≡ true)
      (e0 : starttime_decode rise set (p.starttimes 0) ≡ pos s)
      (today : check_day_match gmtime p t ≡ some a) where
    match-value :
        check_match gmtime rise set p t
        ≡ some (
            (a && starting (minute_of t) s every repeat (omega arith) hs hi hr)
            || (not (every == 0) && (b && lands (minute_of t + 1440 - s) every repeat)))
    unfolding check_match
    match-value =
        let u : int16_of (p.starttimes 2) ≡ pos every = ground arith in
        let v : int16_of (p.starttimes 1) ≡ pos repeat = ground arith in
        ground (
          arith,
          night-value,
          u,
          v,
          starts_today-starting (minute_of t) s every repeat (omega arith) hs hi hr,
        )

    night-hit :
        (not (every == 0) && (b && lands (minute_of t + 1440 - s) every repeat)) ≡ true
        → (b ≡ true) × Hits s every repeat (minute_of t + 1440)
    night-hit h =
        let parts : (0 < every)
            × (b ≡ true)
            × (lands (minute_of t + 1440 - s) every repeat ≡ true) =
          ground arith in
        let (k, le, e) =
          lands-hit (minute_of t + 1440 - s) every repeat (omega arith) parts.0 hi hr parts.2 in
        (parts.1, (k, le, omega arith))

    hit-night :
        (b ≡ true)
        → Hits s every repeat (minute_of t + 1440)
        → (not (every == 0) && (b && lands (minute_of t + 1440 - s) every repeat)) ≡ true
    hit-night eb (k, le, e) =
        let positive : 0 < every = grind arith in
        let hit : lands (minute_of t + 1440 - s) every repeat ≡ true =
          hit-lands (minute_of t + 1440 - s) every repeat (omega arith) positive hi hr
            (k, le, omega arith) in
        ground arith

    -- A repeating program that is enabled, whose first start time decodes to a minute of the day and
    -- whose repeat count and interval are not negative, starts at a minute just when that minute is
    -- start + k * interval for a k up to the repeat count, counted from the midnight of today on a
    -- day that matches, or from that of yesterday if yesterday matches.
    pub check_match_iff : (check_match gmtime rise set p t ≡ some true) ↔ (
        ((a ≡ true) × Hits s every repeat (minute_of t))
        ⊎ ((b ≡ true) × Hits s every repeat (minute_of t + 1440)))
    check_match_iff = (mp, mpr)
      where
        mp :
            check_match gmtime rise set p t ≡ some true
            → ((a ≡ true) × Hits s every repeat (minute_of t))
              ⊎ ((b ≡ true) × Hits s every repeat (minute_of t + 1440))
        mp h = elim split [
          | inl e ↦ inl (
            and_left _ _ e,
            today-hit (minute_of t) s every repeat (omega arith) hs hi hr (and_right _ _ e),
          )
          | inr e ↦ inr (night-hit e)
        ]
          where
            split :
                ((a && starting (minute_of t) s every repeat (omega arith) hs hi hr) ≡ true)
                ⊎ ((not (every == 0) && (b && lands (minute_of t + 1440 - s) every repeat)) ≡ true)
            split = or_cases _ _ (some-eq _ _ (sym match-value ∙ h))

        mpr :
            ((a ≡ true) × Hits s every repeat (minute_of t))
              ⊎ ((b ≡ true) × Hits s every repeat (minute_of t + 1440))
            → check_match gmtime rise set p t ≡ some true
        mpr (inl (ea, hit)) =
            ground (
              arith,
              match-value,
              hit-today (minute_of t) s every repeat (omega arith) hs hi hr hit,
            )
        mpr (inr (eb, hit)) = ground (arith, match-value, hit-night eb hit)
