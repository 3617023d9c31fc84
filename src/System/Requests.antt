-- ===== src/System/Requests.antt =====
-- Every request keeps the state safe (firmware/server.cpp).
use indigo_open_sprinkler_pl.Common.{
  [], ℕ, ◌+◌, ◌%◌, ◌<◌, arith, Bool, true, false, ◌||◌, if◌then◌else◌, ltb, leb, ◌==◌, Option, none,
  some, List, replay, replay_inv, dec_lt, leb-true,
}
use indigo_open_sprinkler_pl.Common.Int.{ℤ, pos, negsuc}
use indigo_open_sprinkler_pl.Http.{find_list, decoded, parse_listdata, to_uint16}
use indigo_open_sprinkler_pl.WaterTime.{water_time_resolve}
use indigo_open_sprinkler_pl.Runtime.{fill, unlinked, max_num_stations}
use indigo_open_sprinkler_pl.Runtime.Bounds.{fill-IsBounded}
use indigo_open_sprinkler_pl.Controller.{Controller, now_tz}
use indigo_open_sprinkler_pl.Scheduler.{
  add_element, schedule_all_stations, turn_off_station, is_master, reset_all_stations_immediate,
  manual_start_program,
}
use indigo_open_sprinkler_pl.Server.{
  server_manual_program, runonce_station, server_change_runonce, test_station, change_station,
  server_change_manual, Result, html_success, html_data_missing, html_data_out_of_bound, int_of,
  key_pid, key_en, key_t, key_sid, key_uwt, first_char,
}
use indigo_open_sprinkler_pl.System.{IsSafe}
use indigo_open_sprinkler_pl.System.Kept.{requeue-IsSafe}
use indigo_open_sprinkler_pl.System.Queueing.{
  nstations-le, add_element-IsSafe, schedule_all_stations-IsSafe, turn_off_station-IsSafe,
  reset_all_stations_immediate-IsSafe, FirstIsSafe, manual_start_program-IsSafe,
}

-- A branch of two answers.
pub if-answer :
    (b : Bool) (s t : Controller × Result)
    → IsSafe s.0
    → IsSafe t.0
    → FirstIsSafe (if b then s else t)
if-answer true s t h k = h
if-answer false s t h k = k

pub server_manual_program-IsSafe :
    (p : List ℕ) (c : Controller) → IsSafe c → FirstIsSafe (server_manual_program p c)
unfolding server_manual_program
server_manual_program-IsSafe p c h = go (int_of key_pid p)
  where
    uwt : Bool
    uwt = first_char key_uwt p == 49

    go :
        (o : Option ℤ)
        → let next : Controller × Result = elim o [
          | none ↦ (c, html_data_missing)
          | some (negsuc n) ↦ (c, html_data_out_of_bound)
          | some (pos pid) ↦ if leb c.nprograms pid then (c, html_data_out_of_bound) else (
            manual_start_program (pid + 1) uwt (reset_all_stations_immediate c),
            html_success,
          )
        ] in
          FirstIsSafe next
    go none = h
    go (some (negsuc n)) = h
    go (some (pos pid)) =
        if-answer (leb c.nprograms pid) _ _ h
          (manual_start_program-IsSafe (pid + 1) uwt _ (reset_all_stations_immediate-IsSafe c h))

runonce_station-IsSafe :
    (sid : ℕ) (s : Controller × List ℕ × Bool)
    → sid < max_num_stations
    → IsSafe s.0
    → IsSafe (runonce_station sid s).0
unfolding runonce_station
runonce_station-IsSafe sid s lt h = ground (
  arith,
  add_element-IsSafe sid 254
      (water_time_resolve s.0.nvdata.sunrise_time s.0.nvdata.sunset_time (parse_listdata s.1).0) s.0
      lt h,
)

pub server_change_runonce-IsSafe :
    (p : List ℕ) (c : Controller) → IsSafe c → FirstIsSafe (server_change_runonce p c)
unfolding server_change_runonce
server_change_runonce-IsSafe p c h = go (find_list 100 116 61 (decoded p (c.buffer_rest [])))
  where
    reset : Controller
    reset = reset_all_stations_immediate c

    reset-IsSafe : IsSafe reset
    reset-IsSafe = reset_all_stations_immediate-IsSafe c h

    queued : List ℕ → Controller × List ℕ × Bool
    queued pv = replay reset.nstations runonce_station (reset, pv, false)

    queued-IsSafe : (pv : List ℕ) → IsSafe (queued pv).0
    queued-IsSafe pv =
        replay_inv (λ s. IsSafe s.0) reset.nstations runonce_station (reset, pv, false)
          (λ sid lt s. runonce_station-IsSafe sid s (omega (arith, nstations-le reset-IsSafe)))
          reset-IsSafe

    finish :
        (s : Controller)
        → IsSafe s
        → (b : Bool)
        → FirstIsSafe (
            if b
            then (schedule_all_stations (now_tz s) s, html_success)
            else (s, html_data_missing))
    finish s k true = schedule_all_stations-IsSafe (now_tz s) s k
    finish s k false = k

    go :
        (o : Option (List ℕ))
        → let next : Controller × Result = elim o [
          | none ↦ (c, html_data_missing)
          | some pv ↦
              if (queued pv).2
              then (schedule_all_stations (now_tz (queued pv).0) (queued pv).0, html_success)
              else ((queued pv).0, html_data_missing)
        ] in
          FirstIsSafe next
    go none = h
    go (some pv) = finish (queued pv).0 (queued-IsSafe pv) (queued pv).2

test_station-IsSafe :
    (sid timer : ℕ) (c : Controller)
    → sid < max_num_stations
    → IsSafe c
    → FirstIsSafe (test_station sid timer c)
unfolding test_station
test_station-IsSafe sid timer c lt h = if-answer (is_master c sid) _ _ h (
    if-answer _ _ _
      (schedule_all_stations-IsSafe (now_tz c) _ (element (c.runtime.station_qid sid == unlinked)))
      h)
  where
    over : Controller
    over = record c {
      runtime =
          fill (c.runtime.station_qid sid) (record { st = 0; dur = timer; sid = sid; pid = 99 })
            c.runtime;
    }

    element : (b : Bool) → IsSafe (if b then add_element sid 99 timer c else (over, true)).0
    element true = add_element-IsSafe sid 99 timer c lt h
    element false =
        requeue-IsSafe c _
          (fill-IsBounded (c.runtime.station_qid sid) _ c.runtime h.runtime_bounded lt) h

change_station-IsSafe :
    (p : List ℕ) (sid : ℕ) (c : Controller)
    → sid < max_num_stations
    → IsSafe c
    → FirstIsSafe (change_station p sid c)
unfolding change_station
change_station-IsSafe p sid c lt h = go (int_of key_en p) (int_of key_t p)
  where
    timed : Option ℤ → Controller × Result
    timed o = elim o [
      | none ↦ (c, html_data_missing)
      | some t ↦
          if (to_uint16 t == 0) || ltb 64800 (to_uint16 t)
          then (c, html_data_out_of_bound)
          else test_station sid (to_uint16 t) c
    ]

    timed-IsSafe : (o : Option ℤ) → FirstIsSafe (timed o)
    timed-IsSafe none = h
    timed-IsSafe (some t) = if-answer _ _ _ h (test_station-IsSafe sid (to_uint16 t) c lt h)

    go :
        (o q : Option ℤ)
        → let next : Controller × Result = elim o [
          | none ↦ (c, html_data_missing)
          | some en ↦
              if to_uint16 en % 256 == 0
              then (turn_off_station sid (now_tz c) c, html_success)
              else timed q
        ] in
          FirstIsSafe next
    go none q = h
    go (some en) q = if-answer _ _ _ (turn_off_station-IsSafe sid (now_tz c) c h) (timed-IsSafe q)

pub server_change_manual-IsSafe :
    (p : List ℕ) (c : Controller) → IsSafe c → FirstIsSafe (server_change_manual p c)
unfolding server_change_manual
server_change_manual-IsSafe p c h = go (int_of key_sid p)
  where
    go :
        (o : Option ℤ)
        → let next : Controller × Result = elim o [
          | none ↦ (c, html_data_missing)
          | some (negsuc n) ↦ (c, html_data_out_of_bound)
          | some (pos sid) ↦
              if leb c.nstations sid then (c, html_data_out_of_bound) else change_station p sid c
        ] in
          FirstIsSafe next
    go none = h
    go (some (negsuc n)) = h
    go (some (pos sid)) = elim (dec_lt sid c.nstations) [
      | yes lt ↦
          if-answer _ _ _ h (change_station-IsSafe p sid c (omega (arith, nstations-le h, lt)) h)
      | no ge ↦ rw (leb-true c.nstations sid (omega arith)) h
    ]
