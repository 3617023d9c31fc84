-- ===== src/System/Safety.antt =====
-- Safety of the controller in every state that it reaches.
use indigo_open_sprinkler_pl.Common.{
  ℕ, ◌&&◌, arith, Bool, true, false, not, if◌then◌else◌, ◌==◌, Option, none, some, List, take, ◌-◌,
}
use indigo_open_sprinkler_pl.Http.{find_nonempty, max_user_password}
use indigo_open_sprinkler_pl.Controller.{Controller}
use indigo_open_sprinkler_pl.Server.{
  check_password, Result, html_success, html_data_missing, html_mismatch, html_unauthorized,
}
use indigo_open_sprinkler_pl.Server.Options.{
  server_change_scripturl, server_change_password, key_npw, key_cpw, same_text, cut,
}
use indigo_open_sprinkler_pl.Server.Stations.{
  server_change_stations, change_special, change_names_and_bits, store_special,
}
use indigo_open_sprinkler_pl.Server.Dispatch.{
  Command, cv, dp, cp, cr, mp, up, co, sp, cm, cs, dl, cu, prints, command_of, delete_log,
  server_delete_log, run_command, needs_password, Reply, home_page, page_not_found, answered,
  reply_of, handle_web_request,
}
use indigo_open_sprinkler_pl.System.{
  memory, IsSafe, Step, request, second, weather, tick, Reach, start, later,
}
use indigo_open_sprinkler_pl.System.Kept.{Unchanged, Unchanged-IsSafe}
use indigo_open_sprinkler_pl.System.Queueing.{FirstIsSafe}
use indigo_open_sprinkler_pl.System.Requests.{
  server_manual_program-IsSafe, server_change_runonce-IsSafe, server_change_manual-IsSafe,
}
use indigo_open_sprinkler_pl.System.Programs.{
  server_delete_program-IsSafe, server_moveup_program-IsSafe, server_change_program-IsSafe,
}
use indigo_open_sprinkler_pl.System.Options.{
  server_change_values-IsSafe, server_change_options-IsSafe,
}
use indigo_open_sprinkler_pl.System.Settings.{periodic-IsSafe}
use indigo_open_sprinkler_pl.System.Second.{do_second-IsSafe}

change_names_and_bits-Unchanged :
    (p : List ℕ) (c : Controller) → Unchanged c (change_names_and_bits p c)
unfolding change_names_and_bits
change_names_and_bits-Unchanged p c = ground arith

change_special-Unchanged : (p : List ℕ) (c : Controller) → Unchanged c (change_special p c).0
unfolding change_special store_special
change_special-Unchanged p c = ground arith

server_change_scripturl-Unchanged :
    (p : List ℕ) (c : Controller) → Unchanged c (server_change_scripturl p c).0
unfolding server_change_scripturl
server_change_scripturl-Unchanged p c = ground arith

server_change_password-Unchanged :
    (p : List ℕ) (c : Controller) → Unchanged c (server_change_password p c).0
unfolding server_change_password
server_change_password-Unchanged p c = go (find_nonempty key_npw p) (find_nonempty key_cpw p)
  where
    stored : List ℕ → Controller × Result
    stored v = (
      record c {
        texts = record (c.texts) {
          password = cut (max_user_password - 1) v (c.buffer_rest key_npw);
        };
      },
      html_success,
    )

    compared : (b : Bool) (v : List ℕ) → Unchanged c (if b then stored v else (c, html_mismatch)).0
    compared true v = ground arith
    compared false v = ground arith

    go :
        (o q : Option (List ℕ))
        → let next : Controller × Result = elim o [
          | none ↦ (c, html_data_missing)
          | some v ↦ elim q [
            | none ↦ (c, html_mismatch)
            | some w ↦
                if same_text (take max_user_password v) (take max_user_password w)
                then stored v
                else (c, html_mismatch)
          ]
        ] in
          Unchanged c next.0
    go none q = ground arith
    go (some v) none = ground arith
    go (some v) (some w) =
        compared (same_text (take max_user_password v) (take max_user_password w)) v

server_delete_log-Unchanged : (p : List ℕ) (c : Controller) → Unchanged c (server_delete_log p c).0
unfolding server_delete_log delete_log
server_delete_log-Unchanged p c = ground arith

run_command-IsSafe :
    (command : Command) (p : List ℕ) (c : Controller)
    → IsSafe c
    → FirstIsSafe (run_command command p c)
unfolding run_command server_change_stations
run_command-IsSafe cv p c h = server_change_values-IsSafe p c h
run_command-IsSafe dp p c h = server_delete_program-IsSafe p c h
run_command-IsSafe cp p c h = server_change_program-IsSafe p c h
run_command-IsSafe cr p c h = server_change_runonce-IsSafe p c h
run_command-IsSafe mp p c h = server_manual_program-IsSafe p c h
run_command-IsSafe up p c h = server_moveup_program-IsSafe p c h
run_command-IsSafe co p c h = server_change_options-IsSafe p c h
run_command-IsSafe sp p c h = Unchanged-IsSafe (server_change_password-Unchanged p c) h
run_command-IsSafe cm p c h = server_change_manual-IsSafe p c h
run_command-IsSafe cs p c h =
    Unchanged-IsSafe (change_special-Unchanged p _)
      (Unchanged-IsSafe (change_names_and_bits-Unchanged p c) h)
run_command-IsSafe dl p c h = Unchanged-IsSafe (server_delete_log-Unchanged p c) h
run_command-IsSafe cu p c h = Unchanged-IsSafe (server_change_scripturl-Unchanged p c) h
run_command-IsSafe (prints a b) p c h = h

if-reply :
    (b : Bool) (s t : Controller × Reply) → IsSafe s.0 → IsSafe t.0 → IsSafe (if b then s else t).0
if-reply true s t h k = h
if-reply false s t h k = k

handle_web_request-IsSafe :
    (a b : ℕ) (dat : List ℕ) (c : Controller) → IsSafe c → IsSafe (handle_web_request a b dat c).0
unfolding handle_web_request
handle_web_request-IsSafe a b dat c h = if-reply (a == 32) (c, home_page) _ h (go (command_of a b))
  where
    go :
        (o : Option Command)
        → let next : Controller × Reply = elim o [
          | none ↦ (c, page_not_found)
          | some command ↦
              if needs_password a b && not (check_password dat c)
              then (c, answered html_unauthorized)
              else reply_of (run_command command dat c)
        ] in
          IsSafe next.0
    go none = h
    go (some command) = if-reply _ _ _ h (run_command-IsSafe command dat c h)

-- Each step of the controller keeps the state safe.
Step-IsSafe : {c d : Controller} → Step c d → IsSafe c → IsSafe d
Step-IsSafe {c} (request a b dat) h = handle_web_request-IsSafe a b dat c h
Step-IsSafe {c} {d} (second gmtime pin minute t e) h = do_second-IsSafe gmtime pin minute t c d e h
Step-IsSafe {c} (weather t answer) h = periodic-IsSafe t answer c h
Step-IsSafe {c} (tick t) h = record {
  runtime_bounded = h.runtime_bounded;
  bytes = h.bytes;
  options_in_range = h.options_in_range;
  boards = h.boards;
  stations = h.stations;
  programs_bounded = h.programs_bounded;
}
Step-IsSafe {c} (memory rest) h = record {
  runtime_bounded = h.runtime_bounded;
  bytes = h.bytes;
  options_in_range = h.options_in_range;
  boards = h.boards;
  stations = h.stations;
  programs_bounded = h.programs_bounded;
}

-- Every state that is reached from a safe state is safe, whatever requests, sensor readings, answers
-- of the weather service and times come in between: at most 56 elements are queued, each for one of
-- 56 stations, each link is none or an index of the queue's array, the station bits are bytes, every
-- option that has a range is within it, there are at most 7 boards, 8 stations for each, and 16 programs.
pub Reach-IsSafe : {c d : Controller} → Reach c d → IsSafe c → IsSafe d
Reach-IsSafe start h = h
Reach-IsSafe (later r s) h = Step-IsSafe s (Reach-IsSafe r h)
