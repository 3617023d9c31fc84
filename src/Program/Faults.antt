-- ===== src/Program/Faults.antt =====
-- When the test of a program's start faults (`ProgramStruct::check_match` of firmware/program.cpp).
use indigo_open_sprinkler_pl.Common.{
  ℕ, ◌+◌, ◌%◌, ◌≡◌, ◌≢◌, ◌↔◌, inl, inr, arith, true, none, Option-cases, ℕ_discrete,
}
use indigo_open_sprinkler_pl.Common.Int.{ℤ}
use indigo_open_sprinkler_pl.Program.{
  ProgramStruct, Tm, interval, divided_by, on_interval, starts_today, over_night, check_day_match,
  check_match, to_unsigned, int16_of, starttime_decode, day_before, minute_of, since,
}
use indigo_open_sprinkler_pl.Program.Days.{day_match_fault}

on_interval_total :
    (d : ℕ) (every repeat : ℤ) → to_unsigned every ≢ 0 → on_interval d every repeat ≢ none
unfolding on_interval divided_by
on_interval_total d every repeat h = ground (arith, h)

starts_today_total :
    (minute : ℕ) (start repeat every : ℤ) → starts_today minute start repeat every ≢ none
unfolding starts_today
starts_today_total minute start repeat every h = elim (ℕ_discrete (to_unsigned every) 0) [
  | yes z ↦ ground arith
  | no nz ↦ ground (arith, on_interval_total (since minute start) every repeat nz)
]

-- The program is enabled and of the interval type with an interval of 0 days.
abbrev pub IsFaulty : ProgramStruct → Type 0
IsFaulty p = (p.enabled ≡ true) × (p.type ≡ interval) × (p.days1 ≡ 0)

over_night-fault :
    (gmtime : ℕ → Tm) (p : ProgramStruct) (t : ℕ) (start : ℤ)
    → over_night gmtime p t start ≡ none
    → (p.type ≡ interval) × (p.days1 ≡ 0)
unfolding over_night
over_night-fault gmtime p t start h =
    elim (Option-cases (check_day_match gmtime p (day_before t))) [
      | inl e ↦ (day_match_fault gmtime p (day_before t)).0 e
      | inr (b, e) ↦ elim (ℕ_discrete (to_unsigned (int16_of (p.starttimes 2))) 0) [
        | yes z ↦ absurd (ground (arith, e))
        | no nz ↦ absurd (
            ground (
              arith,
              e,
              on_interval_total ((since (minute_of t) start + 1440) % 4294967296)
                  (int16_of (p.starttimes 2)) (int16_of (p.starttimes 1)) nz,
            ))
      ]
    ]

-- The test whether a program starts at a given time faults, by a division by zero, exactly if the
-- program is enabled and of the interval type with an interval of 0 days. So the divisions by the
-- minutes between the repeated starts never fault, whatever the start times are.
pub check_match_fault :
    (gmtime : ℕ → Tm) (rise set : ℕ) (p : ProgramStruct) (t : ℕ)
    → (check_match gmtime rise set p t ≡ none) ↔ IsFaulty p
unfolding check_match check_day_match
check_match_fault gmtime rise set p t = (
  λ h. elim (Option-cases (check_day_match gmtime p t)) [
    | inl e ↦ let f = (day_match_fault gmtime p t).0 e in (ground arith, f.0, f.1)
    | inr (b, e) ↦
        let later : over_night gmtime p t start ≡ none = ground (
          arith,
          e,
          starts_today_total (minute_of t) start (int16_of (p.starttimes 1))
              (int16_of (p.starttimes 2)),
        ) in
        let f = over_night-fault gmtime p t start later in (ground arith, f.0, f.1)
  ],
  λ h. let e = (day_match_fault gmtime p t).1 (h.1, h.2) in ground (arith, h.0, e),
)
  where
    start : ℤ
    start = starttime_decode rise set (p.starttimes 0)
