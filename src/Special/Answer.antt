-- ===== src/Special/Answer.antt =====
-- How the other controller answers the request for a remote station: `switch_remotestation` of
-- firmware/OpenSprinkler.cpp against `handle_web_request` and `server_change_manual` of
-- firmware/server.cpp.
use indigo_open_sprinkler_pl.Common.{
  ℕ, ◌≤◌, ◌<◌, ◌≡◌, refl, ◌∙◌, ap, sym, arith, Bool, true, false, not, ◌||◌, leb, ltb, ◌==◌,
  if◌then◌else◌, List, [], ◌∷◌, some, length, Bool-cases, inl, inr, ◌⊎◌,
}
use indigo_open_sprinkler_pl.Common.Int.{pos}
use indigo_open_sprinkler_pl.Http.{hex2ulong, password_verify, text_of, decoded, to_uint16}
use indigo_open_sprinkler_pl.Http.Laws.{HasNoNul, password_verify_iff}
use indigo_open_sprinkler_pl.Controller.{Controller, now_tz}
use indigo_open_sprinkler_pl.Controller.OptionIndex.{
  option_spe_auto_refresh, option_ignore_password,
}
use indigo_open_sprinkler_pl.Scheduler.{turn_off_station}
use indigo_open_sprinkler_pl.Server.{
  key_pw, html_success, html_data_out_of_bound, int_of, key_sid, key_en, key_t, check_password,
  test_station, change_station, server_change_manual,
}
use indigo_open_sprinkler_pl.Server.Dispatch.{handle_web_request, run_command, command_of, reply_of}
use indigo_open_sprinkler_pl.Special.{RemoteStationData, remote_timer, remote_query}
use indigo_open_sprinkler_pl.Special.Scan.{IsHash, decoded-hash, text_of-hash}
use indigo_open_sprinkler_pl.Special.Remote.{
  query, remote_query-query, IsNonempty, query-sid, query-en, query-t, query-pw,
}

leb-false : (a b : ℕ) → b < a → leb a b ≡ false
leb-false a b h = ground arith

hash-HasNoNul : (xs : List ℕ) → IsHash xs → HasNoNul xs
hash-HasNoNul [] p = tt
hash-HasNoNul (x ∷ xs) p = (ground (arith, p.0), hash-HasNoNul xs p.1)

accepted :
    (d : Controller) (s e t : ℕ)
    → IsHash d.texts.password
    → length d.texts.password ≤ 36
    → IsNonempty d.texts.password
    → check_password (query d.texts.password s e t) d ≡ true
unfolding check_password
accepted d s e t p h full =
    let pw = d.texts.password in
    let given = decoded pw (d.buffer_rest key_pw) in
    let plain : given ≡ pw = decoded-hash pw (d.buffer_rest key_pw) p in
    let same : password_verify pw given ≡ true =
      (password_verify_iff pw given (hash-HasNoNul pw p) h).1
        (sym (ap text_of plain ∙ text_of-hash pw p)) in
    elim (Bool-cases (not (d.options option_ignore_password == 0))) [
      | inl ignored ↦ rw ignored refl
      | inr asked ↦ rw (asked, query-pw pw s e t p h full) same
    ]

turned_off :
    (q : List ℕ) (sid : ℕ) (d : Controller)
    → int_of key_sid q ≡ some (pos sid)
    → int_of key_en q ≡ some (pos 0)
    → sid < d.nstations
    → server_change_manual q d ≡ (turn_off_station sid (now_tz d) d, html_success)
unfolding server_change_manual change_station
turned_off q sid d h e lt =
    rw (server_change_manual, h, leb-false d.nstations sid lt, change_station, e) refl

turned_on :
    (q : List ℕ) (sid t : ℕ) (d : Controller)
    → int_of key_sid q ≡ some (pos sid)
    → int_of key_en q ≡ some (pos 1)
    → int_of key_t q ≡ some (pos t)
    → sid < d.nstations
    → server_change_manual q d ≡ (
        if (to_uint16 (pos t) == 0) || ltb 64800 (to_uint16 (pos t))
        then (d, html_data_out_of_bound)
        else test_station sid (to_uint16 (pos t)) d)
unfolding server_change_manual change_station
turned_on q sid t d h e f lt =
    rw (server_change_manual, h, leb-false d.nstations sid lt, change_station, e, f) refl

-- What a controller answers to the request that switches one of its stations as a remote station of
-- another controller with the same password, a hash of at most 36 hexadecimal digits: to turn it off,
-- it is turned off at once; to turn it on, the answer is that of `test_station` for 112 seconds (which
-- refuses a master station and a full queue) if the sender refreshes its special stations; if not, the
-- request asks for 65535 seconds and is refused. The other controller has fewer than 256 stations,
-- and the station is one of them.
pub switch_remotestation_answer :
    (station : RemoteStationData) (turnon : Bool) (c d : Controller)
    → IsHash d.texts.password
    → length d.texts.password ≤ 36
    → IsNonempty d.texts.password
    → c.texts.password ≡ d.texts.password
    → hex2ulong station.sid < d.nstations
    → d.nstations < 256
    → handle_web_request 99 109 (remote_query station turnon c) d ≡ (
        let sid = hex2ulong station.sid in
        reply_of (
          if turnon
          then (if c.options option_spe_auto_refresh == 0
              then (d, html_data_out_of_bound)
              else test_station sid 112 d)
          else (turn_off_station sid (now_tz d) d, html_success)))
unfolding handle_web_request run_command command_of remote_timer server_change_manual change_station
switch_remotestation_answer station turnon c d p h full same known few =
    ap (λ q. handle_web_request 99 109 q d)
      (remote_query-query station turnon c
        ∙ ap (λ w. query w sid (if turnon then 1 else 0) (remote_timer c)) same)
    ∙ rw (accepted d sid (if turnon then 1 else 0) (remote_timer c) p h full)
        (ap reply_of (manual turnon (Bool-cases (c.options option_spe_auto_refresh == 0))))
  where
    sid : ℕ
    sid = hex2ulong station.sid

    pw : List ℕ
    pw = d.texts.password

    for :
        (t : ℕ)
        → t < 65536
        → server_change_manual (query pw sid 1 t) d ≡ (
            if (to_uint16 (pos t) == 0) || ltb 64800 (to_uint16 (pos t))
            then (d, html_data_out_of_bound)
            else test_station sid (to_uint16 (pos t)) d)
    for t lt =
        turned_on (query pw sid 1 t) sid t d (query-sid pw sid 1 t p (omega (arith, known, few)))
          (query-en pw sid 1 t p (omega arith)) (query-t pw sid 1 t p lt) known

    manual :
        (on : Bool)
        → (c.options option_spe_auto_refresh == 0 ≡ true)
          ⊎ (c.options option_spe_auto_refresh == 0 ≡ false)
        → server_change_manual (query pw sid (if on then 1 else 0) (remote_timer c)) d ≡ (
            if on
            then (if c.options option_spe_auto_refresh == 0
                then (d, html_data_out_of_bound)
                else test_station sid 112 d)
            else (turn_off_station sid (now_tz d) d, html_success))
    manual false auto =
        turned_off (query pw sid 0 (remote_timer c)) sid d
          (query-sid pw sid 0 (remote_timer c) p (omega (arith, known, few)))
          (query-en pw sid 0 (remote_timer c) p (omega arith)) known
    manual true (inl off) = rw off (for 65535 (omega arith))
    manual true (inr on) = rw on (for 112 (omega arith))
