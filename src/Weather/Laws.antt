-- ===== src/Weather/Laws.antt =====
-- What the answer of the weather service can do to the controller.
use indigo_open_sprinkler_pl.Common.{
  ℕ, zero, suc, ◌≤◌, ◌≡◌, inl, inr, refl, sym, ◌∙◌, ap, arith, leb, if◌then◌else◌, List, Option,
  none, some, update, Option-cases,
}
use indigo_open_sprinkler_pl.Common.Int.{ℤ, pos, negsuc}
use indigo_open_sprinkler_pl.Http.{find_nonempty, atol}
use indigo_open_sprinkler_pl.Controller.{Controller, write_log, log_waterlevel, now_tz}
use indigo_open_sprinkler_pl.Controller.OptionIndex.{option_water_percentage, option_timezone}
use indigo_open_sprinkler_pl.Controller.Settings.{
  nvdata_save, options_save, apply_options, raindelay_start, raindelay_stop,
}
use indigo_open_sprinkler_pl.Weather.{
  from_ampersand, value_in, take_sunrise, take_sunset, take_external_ip, take_scale, take_timezone,
  take_rain_delay, take_settings, getweather_callback, key_sunrise, key_sunset, key_scale, key_tz,
  key_eip, key_rd,
}

-- Sunrise and sunset are minutes of a day, the watering percentage is at most 250 and the time zone
-- at most 108 quarters of an hour.
pub record IsSane (c : Controller) : Type 0 where
  pub sunrise : c.nvdata.sunrise_time ≤ 1440
  pub sunset : c.nvdata.sunset_time ≤ 1440
  pub scale : c.options option_water_percentage ≤ 250
  pub timezone : c.options option_timezone ≤ 108

pub value_in-bound : (key : List ℕ) (max v : ℕ) (p : List ℕ) → value_in key max p ≡ some v → v ≤ max
unfolding value_in
value_in-bound key max v p h = elim (Option-cases (find_nonempty key p)) [
  | inl e ↦ absurd (none_some (sym (rw (value_in, e) refl) ∙ h))
  | inr (text, e) ↦ in_text text (atol text) (sym (rw (value_in, e) refl) ∙ h)
]
  where
    none_some : none ≡ some v → ⊥
    none_some eq = cc

    in_text :
        List ℕ
        → (z : ℤ)
        → elim z as (λ (x : ℤ). Option ℕ) [
          | pos w ↦ if leb w max then some w else none
          | negsuc n ↦ none
        ]
          ≡ some v
        → v ≤ max
    in_text text (pos w) eq = ground arith
    in_text text (negsuc n) eq = ground arith

-- The value, if there is one, is at most `max`.
abbrev Within : Option ℕ → ℕ → Type 0
Within o max = (v : ℕ) → o ≡ some v → v ≤ max

take_sunrise-IsSane :
    (o : Option ℕ) (c : Controller) → Within o 1440 → IsSane c → IsSane (take_sunrise o c)
unfolding take_sunrise nvdata_save
take_sunrise-IsSane none c w h = h
take_sunrise-IsSane (some v) c w h = record {
  sunrise = ground (arith, w v refl, h.sunrise);
  sunset = ground (arith, h.sunset);
  scale = ground (arith, h.scale);
  timezone = ground (arith, h.timezone);
}

take_sunset-IsSane :
    (o : Option ℕ) (c : Controller) → Within o 1440 → IsSane c → IsSane (take_sunset o c)
unfolding take_sunset nvdata_save
take_sunset-IsSane none c w h = h
take_sunset-IsSane (some v) c w h = record {
  sunrise = ground (arith, h.sunrise);
  sunset = ground (arith, w v refl, h.sunset);
  scale = ground (arith, h.scale);
  timezone = ground (arith, h.timezone);
}

take_external_ip-IsSane :
    (o : Option (List ℕ)) (c : Controller) → IsSane c → IsSane (take_external_ip o c)
unfolding take_external_ip nvdata_save
take_external_ip-IsSane none c h = h
take_external_ip-IsSane (some v) c h = record {
  sunrise = ground (arith, h.sunrise);
  sunset = ground (arith, h.sunset);
  scale = ground (arith, h.scale);
  timezone = ground (arith, h.timezone);
}

take_scale-IsSane :
    (o : Option ℕ) (c : Controller) → Within o 250 → IsSane c → IsSane (take_scale o c)
unfolding take_scale options_save apply_options update
take_scale-IsSane none c w h = h
take_scale-IsSane (some v) c w h = record {
  sunrise = ground (arith, h.sunrise);
  sunset = ground (arith, h.sunset);
  scale = ground (arith, w v refl, h.scale);
  timezone = ground (arith, h.timezone);
}

take_timezone-IsSane :
    (o : Option ℕ) (c : Controller) → Within o 108 → IsSane c → IsSane (take_timezone o c)
unfolding take_timezone options_save apply_options update
take_timezone-IsSane none c w h = h
take_timezone-IsSane (some v) c w h = record {
  sunrise = ground (arith, h.sunrise);
  sunset = ground (arith, h.sunset);
  scale = ground (arith, h.scale);
  timezone = ground (arith, w v refl, h.timezone);
}

IsSane-eq :
    (c d : Controller)
    → d.nvdata.sunrise_time ≡ c.nvdata.sunrise_time
    → d.nvdata.sunset_time ≡ c.nvdata.sunset_time
    → d.options ≡ c.options
    → IsSane c
    → IsSane d
IsSane-eq c d a b e h = record {
  sunrise = rw a h.sunrise;
  sunset = rw b h.sunset;
  scale = rw (ap (λ f. f option_water_percentage) e) h.scale;
  timezone = rw (ap (λ f. f option_timezone) e) h.timezone;
}

take_rain_delay-same :
    (o : Option (List ℕ)) (c : Controller)
    → ((take_rain_delay o c).nvdata.sunrise_time ≡ c.nvdata.sunrise_time)
      × ((take_rain_delay o c).nvdata.sunset_time ≡ c.nvdata.sunset_time)
      × ((take_rain_delay o c).options ≡ c.options)
unfolding take_rain_delay raindelay_start raindelay_stop
take_rain_delay-same none c = (refl, refl, refl)
take_rain_delay-same (some text) c = cases (atol text) refl
  where
    cases :
        (z : ℤ)
        → atol text ≡ z
        → ((take_rain_delay (some text) c).nvdata.sunrise_time ≡ c.nvdata.sunrise_time)
          × ((take_rain_delay (some text) c).nvdata.sunset_time ≡ c.nvdata.sunset_time)
          × ((take_rain_delay (some text) c).options ≡ c.options)
    cases (pos zero) e = rw (take_rain_delay, e) (refl, refl, refl)
    cases (pos (suc n)) e = rw (take_rain_delay, e) (refl, refl, refl)
    cases (negsuc n) e = rw (take_rain_delay, e) (refl, refl, refl)

take_settings-IsSane : (p : List ℕ) (c : Controller) → IsSane c → IsSane (take_settings p c)
unfolding take_settings
take_settings-IsSane p c h =
    let a =
      take_sunrise-IsSane (value_in key_sunrise 1440 p) c (λ v. value_in-bound key_sunrise 1440 v p)
        h in
    let b =
      take_sunset-IsSane (value_in key_sunset 1440 p) _ (λ v. value_in-bound key_sunset 1440 v p)
        a in
    let d = take_external_ip-IsSane (find_nonempty key_eip p) _ b in
    let e =
      take_scale-IsSane (value_in key_scale 250 p) _ (λ v. value_in-bound key_scale 250 v p) d in
    let f = take_timezone-IsSane (value_in key_tz 108 p) _ (λ v. value_in-bound key_tz 108 v p) e in
    let r = take_rain_delay-same (find_nonempty key_rd p) _ in IsSane-eq _ _ r.0 r.1 r.2 f

write_log-same :
    (t : ℕ) (c : Controller)
    → ((write_log log_waterlevel t c).nvdata ≡ c.nvdata)
      × ((write_log log_waterlevel t c).options ≡ c.options)
unfolding write_log
write_log-same t c = (ground arith, ground arith)

-- Whatever text the weather service answers, sunrise, sunset, watering percentage and time zone stay
-- within their ranges.
pub getweather_callback-IsSane :
    (text : List ℕ) (c : Controller) → IsSane c → IsSane (getweather_callback text c)
unfolding getweather_callback
getweather_callback-IsSane text c h = elim (Option-cases (from_ampersand text)) [
  | inl e ↦ rw (getweather_callback, e) h
  | inr (p, e) ↦
      let t = now_tz (take_settings p c) in
      let w = write_log-same t (record (take_settings p c) { checkwt_success_lasttime = t }) in
      rw (getweather_callback, e)
        (IsSane-eq (take_settings p c) _ (ap (λ d. d.sunrise_time) w.0)
          (ap (λ d. d.sunset_time) w.0) w.1 (take_settings-IsSane p c h))
]
