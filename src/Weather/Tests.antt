-- ===== src/Weather/Tests.antt =====
-- An answer of the weather service.
use indigo_open_sprinkler_pl.Common.{ℕ, arith, List, [], ◌∷◌}
use indigo_open_sprinkler_pl.Controller.Sample.{sample}
use indigo_open_sprinkler_pl.Weather.{getweather_callback}
use indigo_open_sprinkler_pl.Weather.Laws.{IsSane, getweather_callback-IsSane}

-- "&scale=99&"
abbrev received : List ℕ
received = 38 ∷ 115 ∷ 99 ∷ 97 ∷ 108 ∷ 101 ∷ 61 ∷ 57 ∷ 57 ∷ 38 ∷ []

sample-IsSane : IsSane sample
sample-IsSane = record {
  sunrise = omega arith;
  sunset = omega arith;
  scale = omega arith;
  timezone = omega arith;
}

getweather_callback-IsSane_example : IsSane (getweather_callback received sample)
getweather_callback-IsSane_example = getweather_callback-IsSane received sample sample-IsSane
