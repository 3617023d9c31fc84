-- ===== src/System/Options.antt =====
-- The handlers of values and options keep the state safe (firmware/server.cpp).
use indigo_open_sprinkler_pl.Common.{
  ℕ, zero, suc, ◌≤◌, ◌<◌, ◌≡◌, refl, arith, Bool, true, if◌then◌else◌, ◌==◌, Option, none, some,
  List, ◌∷◌, ℕ_discrete, ==_ne,
}
use indigo_open_sprinkler_pl.Common.Int.{ℤ, pos, negsuc}
use indigo_open_sprinkler_pl.Http.{find_nonempty}
use indigo_open_sprinkler_pl.Controller.{Controller, Texts, Event, update_call}
use indigo_open_sprinkler_pl.Controller.OptionIndex.{
  op_max, num_options, option_remote_ext_mode, option_use_ntp,
}
use indigo_open_sprinkler_pl.Controller.Settings.{options_save}
use indigo_open_sprinkler_pl.Scheduler.{reset_all_stations, reset_all_stations_immediate}
use indigo_open_sprinkler_pl.Server.{
  Result, html_success, html_data_out_of_bound, int_of, key_rsn, key_update, key_rd, key_en, key_re,
  first_char, is_positive,
}
use indigo_open_sprinkler_pl.Server.Values.{
  call_system, change_enabled, change_rain_delay, set_remote, change_remote, server_change_values,
}
use indigo_open_sprinkler_pl.Server.Options.{
  Changes, change_all_options, change_location, change_weather_key, change_ifttt_key, change_time,
  change_weather_options, server_change_options, key_ttt, key_loc, same_text, cut,
}
use indigo_open_sprinkler_pl.Server.Bounds.{change_all_options_lem}
use indigo_open_sprinkler_pl.System.{IsSafe}
use indigo_open_sprinkler_pl.System.Kept.{Unchanged, Unchanged-IsSafe}
use indigo_open_sprinkler_pl.System.Settings.{
  options-IsSafe, options_save-IsSafe, enable-IsSafe, disable-IsSafe, raindelay_stop-Unchanged,
  raindelay_start-Unchanged,
}
use indigo_open_sprinkler_pl.System.Queueing.{
  if-IsSafe, reset_all_stations-IsSafe, reset_all_stations_immediate-IsSafe, FirstIsSafe,
}
use indigo_open_sprinkler_pl.System.Requests.{if-answer}

events-Unchanged : (c : Controller) (e : List Event) → Unchanged c (record c { events = e })
events-Unchanged c e = ground arith

call_system-IsSafe : (p : List ℕ) (c : Controller) → IsSafe c → IsSafe (call_system p c)
unfolding call_system
call_system-IsSafe p c h = if-IsSafe _ (Unchanged-IsSafe (events-Unchanged _ _) updated) updated
  where
    reset : Option (List ℕ) → Controller
    reset o = elim o [ none ↦ c | some v ↦ reset_all_stations c ]

    reset-IsSafe : (o : Option (List ℕ)) → IsSafe (reset o)
    reset-IsSafe none = h
    reset-IsSafe (some v) = reset_all_stations-IsSafe c h

    updated :
        let s = reset (find_nonempty key_rsn p) in
        IsSafe (
          if is_positive (int_of key_update p)
          then record s { events = update_call ∷ s.events }
          else s)
    updated =
        if-IsSafe _
          (Unchanged-IsSafe (events-Unchanged _ _) (reset-IsSafe (find_nonempty key_rsn p)))
          (reset-IsSafe (find_nonempty key_rsn p))

change_enabled-IsSafe : (en : ℕ) (c : Controller) → IsSafe c → IsSafe (change_enabled en c)
unfolding change_enabled
change_enabled-IsSafe en c h = if-IsSafe _ (enable-IsSafe c h) (if-IsSafe _ (disable-IsSafe c h) h)

remote-max : op_max option_remote_ext_mode ≡ 1
unfolding op_max
remote-max = refl

set_remote-IsSafe : (v : ℕ) (c : Controller) → v ≤ 1 → IsSafe c → IsSafe (set_remote v c)
unfolding set_remote
set_remote-IsSafe v c le h = options_save-IsSafe _ (
    options-IsSafe c _
      (λ oid lt ranged. in_range oid lt ranged (ℕ_discrete oid option_remote_ext_mode)) h)
  where
    in_range :
        (oid : ℕ)
        → oid < num_options
        → 0 < op_max oid
        → Dec (oid ≡ option_remote_ext_mode)
        → (if oid == option_remote_ext_mode then v else c.options oid) ≤ op_max oid
    in_range oid lt ranged (yes e) = rw (e, remote-max) le
    in_range oid lt ranged (no ne) =
        rw (==_ne oid option_remote_ext_mode ne) (h.options_in_range oid lt ranged)

change_remote-IsSafe : (re : ℕ) (c : Controller) → IsSafe c → IsSafe (change_remote re c)
unfolding change_remote
change_remote-IsSafe re c h =
    if-IsSafe _ (set_remote-IsSafe 1 c (omega arith) h)
      (if-IsSafe _ (set_remote-IsSafe 0 c (omega arith) h) h)

pub server_change_values-IsSafe :
    (p : List ℕ) (c : Controller) → IsSafe c → FirstIsSafe (server_change_values p c)
unfolding server_change_values change_rain_delay
server_change_values-IsSafe p c h = go (int_of key_rd p)
  where
    switched : Controller
    switched = change_enabled (first_char key_en p) (call_system p c)

    switched-IsSafe : IsSafe switched
    switched-IsSafe = change_enabled-IsSafe _ _ (call_system-IsSafe p c h)

    go :
        (o : Option ℤ)
        → let delayed : Option Controller = elim o [
          | none ↦ some switched
          | some rd ↦ change_rain_delay rd switched
        ] in
          let next : Controller × Result = elim delayed [
            | none ↦ (switched, html_data_out_of_bound)
            | some d ↦ (change_remote (first_char key_re p) d, html_success)
          ] in
          FirstIsSafe next
    go none = change_remote-IsSafe _ _ switched-IsSafe
    go (some (pos zero)) =
        change_remote-IsSafe _ _
          (Unchanged-IsSafe (raindelay_stop-Unchanged switched) switched-IsSafe)
    go (some (pos (suc n))) =
        change_remote-IsSafe _ _
          (Unchanged-IsSafe (raindelay_start-Unchanged _ switched) switched-IsSafe)
    go (some (negsuc n)) = switched-IsSafe

texts-Unchanged : (c : Controller) (x : Texts) → Unchanged c (record c { texts = x })
texts-Unchanged c x = ground arith

change_location-IsSafe :
    (p : List ℕ) (s : Controller × Bool) → FirstIsSafe s → FirstIsSafe (change_location p s)
unfolding change_location
change_location-IsSafe p (c, b) h = Unchanged-IsSafe (same (find_nonempty key_loc p)) h
  where
    same :
        (o : Option (List ℕ))
        → let next : Controller × Bool = elim o [
          | none ↦ (c, b)
          | some v ↦
              let place = cut 47 v (c.buffer_rest key_loc) in
              if same_text place c.texts.location
              then (c, b)
              else (record c { texts = record (c.texts) { location = place } }, true)
        ] in
          Unchanged c next.0
    same o = ground arith

change_weather_key-Unchanged :
    (p : List ℕ) (s : Controller × Bool) → Unchanged s.0 (change_weather_key p s).0
unfolding change_weather_key
change_weather_key-Unchanged p (c, b) = ground arith

change_ifttt_key-Unchanged : (p : List ℕ) (c : Controller) → Unchanged c (change_ifttt_key p c)
unfolding change_ifttt_key
change_ifttt_key-Unchanged p c = ground arith

change_weather_options-Unchanged :
    (p : List ℕ) (s : Controller × Bool) → Unchanged s.0 (change_weather_options p s).0
unfolding change_weather_options
change_weather_options-Unchanged p (c, b) = ground arith

change_time-IsSafe : (p : List ℕ) (c : Controller) → IsSafe c → IsSafe (change_time p c)
unfolding change_time
change_time-IsSafe p c h = go (find_nonempty key_ttt p)
  where
    go :
        (o : Option (List ℕ))
        → let next : Controller = elim o [
          | none ↦ c
          | some v ↦ if c.options option_use_ntp == 0 then reset_all_stations_immediate c else c
        ] in
          IsSafe next
    go none = h
    go (some v) = if-IsSafe _ (reset_all_stations_immediate-IsSafe c h) h

synced-Unchanged :
    (c : Controller) → Unchanged c (record c { status = record (c.status) { req_ntpsync = true } })
synced-Unchanged c = ground arith

forced-Unchanged : (c : Controller) → Unchanged c (record c { checkwt_lasttime = 0 })
forced-Unchanged c = ground arith

pub server_change_options-IsSafe :
    (p : List ℕ) (c : Controller) → IsSafe c → FirstIsSafe (server_change_options p c)
unfolding server_change_options
server_change_options-IsSafe p c h = if-answer k.err _ _ timed-IsSafe (forced-IsSafe timed.1)
  where
    k : Changes
    k = change_all_options p c

    located : Controller × Bool
    located = change_location p (record c { options = k.options }, k.weather_change)

    keyed : Controller × Bool
    keyed = change_weather_key p located

    timed : Controller × Bool
    timed = change_weather_options p (change_time p (change_ifttt_key p keyed.0), keyed.1)

    located-IsSafe : IsSafe located.0
    located-IsSafe =
        change_location-IsSafe p _
          (options-IsSafe c k.options (change_all_options_lem p c h.options_in_range).0 h)

    timed-IsSafe : IsSafe timed.0
    timed-IsSafe = Unchanged-IsSafe (change_weather_options-Unchanged p _) (
        change_time-IsSafe p _ (
          Unchanged-IsSafe (change_ifttt_key-Unchanged p _)
            (Unchanged-IsSafe (change_weather_key-Unchanged p located) located-IsSafe)))

    synced : Controller
    synced =
        let saved = options_save timed.0 in
        if k.time_change
        then record saved { status = record (saved.status) { req_ntpsync = true } }
        else saved

    synced-IsSafe : IsSafe synced
    synced-IsSafe =
        let saved = options_save-IsSafe timed.0 timed-IsSafe in
        if-IsSafe k.time_change (Unchanged-IsSafe (synced-Unchanged _) saved) saved

    forced-IsSafe :
        (b : Bool) → IsSafe (if b then record synced { checkwt_lasttime = 0 } else synced)
    forced-IsSafe b =
        if-IsSafe b (Unchanged-IsSafe (forced-Unchanged _) synced-IsSafe) synced-IsSafe
