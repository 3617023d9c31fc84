-- ===== src/Program/Days.antt =====
-- The days on which a program may start, and the remainders of interval programs.
use native.Mathlib.Nat.{mod-add-mod, mod-lt, mod-eq-sub-mod, mod-eq_of_lt}
use indigo_open_sprinkler_pl.Common.{
  ℕ, ◌+◌, ◌-◌, ◌/◌, ◌%◌, ◌≤◌, ◌<◌, ◌≡◌, ◌≢◌, ◌⊎◌, ◌↔◌, inl, inr, ◌∙◌, dec_lt, arith, true, false,
  none, some,
}
use indigo_open_sprinkler_pl.Program.{
  ProgramStruct, monthly, interval, unrestricted, odd, even, Tm, check_day_match, oddeven_ok,
  remainder_by, type_ok, drem_to_relative, drem_to_absolute, secs_per_day,
}

-- The day test fails to return, by a division by zero, exactly for interval programs with an interval
-- of 0 days.
pub day_match_fault :
    (gmtime : ℕ → Tm) (p : ProgramStruct) (t : ℕ)
    → (check_day_match gmtime p t ≡ none) ↔ ((p.type ≡ interval) × (p.days1 ≡ 0))
unfolding check_day_match type_ok remainder_by
day_match_fault gmtime p t = ground arith

-- With the odd-day restriction a program starts on no even day, on no 31st and on no 29th of
-- February; with the even-day restriction on no odd day. This holds for every type of program.
pub day_match_oddeven :
    (gmtime : ℕ → Tm) (p : ProgramStruct) (t : ℕ)
    → check_day_match gmtime p t ≡ some true
    → (p.oddeven ≡ odd
        → ((gmtime t).mday % 2 ≡ 1)
          × ((gmtime t).mday ≢ 31)
          × (((gmtime t).mon ≡ 1) → (gmtime t).mday ≢ 29))
      × (p.oddeven ≡ even → (gmtime t).mday % 2 ≡ 0)
unfolding check_day_match oddeven_ok
day_match_oddeven gmtime p t h = (λ e. ground arith, λ e. ground arith)

-- A monthly program whose day is stored as 32 ("the last day of the month" in program.h) starts on
-- no day of any month.
pub monthly_last_day :
    (gmtime : ℕ → Tm) (p : ProgramStruct) (t : ℕ)
    → p.type ≡ monthly
    → p.days0 ≡ 32
    → 1 ≤ (gmtime t).mday
    → check_day_match gmtime p t ≡ some false
unfolding check_day_match type_ok remainder_by
monthly_last_day gmtime p t e d h = ground arith

mod-add-cases :
    (a b m : ℕ)
    → a < m
    → b < m
    → ((a + b < m) × ((a + b) % m ≡ a + b)) ⊎ ((m ≤ a + b) × ((a + b) % m ≡ a + b - m))
mod-add-cases a b m ha hb = elim (dec_lt (a + b) m) [
  | yes p ↦ inl (p, mod-eq_of_lt p)
  | no p ↦ inr (omega arith, mod-eq-sub-mod (omega arith) ∙ mod-eq_of_lt (omega arith))
]

back : (w r m : ℕ) → w < m → r < m → ((w + r) % m + m - w) % m ≡ r
back w r m hw hr = grind (arith, mod-add-cases)

forth : (w r m : ℕ) → w < m → r < m → (w + (r + m - w) % m) % m ≡ r
forth w r m hw hr = grind (arith, mod-add-cases)

byte_of_mod : (n m : ℕ) → 0 < m → m < 256 → (n % m) % 256 ≡ n % m
byte_of_mod n m h k = mod-eq_of_lt (omega (arith, mod-lt n h))

module _ (now_tz inv : ℕ) (positive : 0 < inv) (byte : inv < 256) where
  -- Remainders below the interval survive the way into the store and back on the same day, and the
  -- way out of the store and back in.
  pub drem_round_trip :
      (r : ℕ)
      → r < inv
      → (drem_to_relative now_tz (drem_to_absolute now_tz r inv) inv ≡ r)
        × (drem_to_absolute now_tz (drem_to_relative now_tz r inv) inv ≡ r)
  unfolding drem_to_relative drem_to_absolute
  drem_round_trip r h =
      let today = now_tz / secs_per_day in
      let small = mod-lt today positive in
      (
        rw
            (
              byte_of_mod (today + r) inv positive byte,
              ← mod-add-mod today inv r,
              byte_of_mod ((today % inv + r) % inv + inv - today % inv) inv positive byte,
            )
            (back (today % inv) r inv small h),
        rw
            (
              byte_of_mod (r + inv - today % inv) inv positive byte,
              byte_of_mod (today + (r + inv - today % inv) % inv) inv positive byte,
              ← mod-add-mod today inv ((r + inv - today % inv) % inv),
            )
            (forth (today % inv) r inv small h),
      )

  -- An interval program (with no odd or even restriction) that is stored with the relative
  -- remainder r matches a day exactly when that day is r days, and any number of intervals, away
  -- from today: the day number and today + r leave the same remainder.
  drem_matches :
      (gmtime : ℕ → Tm) (p : ProgramStruct) (r t : ℕ)
      → p.type ≡ interval
      → p.oddeven ≡ unrestricted
      → p.days1 ≡ inv
      → p.days0 ≡ drem_to_absolute now_tz r inv
      → (check_day_match gmtime p t ≡ some true)
        ↔ ((t / secs_per_day) % inv ≡ (now_tz / secs_per_day + r) % inv)
  unfolding check_day_match type_ok remainder_by oddeven_ok drem_to_absolute
  drem_matches gmtime p r t e o e1 e0 =
      let b = byte_of_mod (now_tz / secs_per_day + r) inv positive byte in ground (arith, b)
