-- ===== src/Server/Dispatch.antt =====
-- From a request to its handler (`handle_web_request` of firmware/server.cpp).
use indigo_open_sprinkler_pl.Common.{
  ℕ, ◌-◌, Bool, false, not, ◌&&◌, ◌||◌, ◌==◌, if◌then◌else◌, List, [], ◌∷◌, Option, none, some,
}
use indigo_open_sprinkler_pl.Http.{
  find_nonempty, digits_value, is_digit, all_digits, head_or_nul, skip,
}
use indigo_open_sprinkler_pl.Controller.{Controller, LogRecord, run_record, value_record}
use indigo_open_sprinkler_pl.Controller.OptionIndex.{option_enable_logging}
use indigo_open_sprinkler_pl.Server.{
  Result, html_ok, html_success, html_unauthorized, html_data_missing, check_password,
  server_manual_program, server_change_runonce, server_change_manual,
}
use indigo_open_sprinkler_pl.Server.Values.{server_change_values}
use indigo_open_sprinkler_pl.Server.Programs.{
  server_delete_program, server_moveup_program, server_change_program,
}
use indigo_open_sprinkler_pl.Server.Options.{
  server_change_options, server_change_scripturl, server_change_password,
}
use indigo_open_sprinkler_pl.Server.Stations.{server_change_stations}

-- The commands that change state, and the others, which print a page or a JSON text.
pub data Command : Type 0 where
  cv dp cp cr mp up co sp cm cs dl cu : Command
  prints : (a b : ℕ) → Command

-- The command of two letters.
unfoldable pub command_of : ℕ → ℕ → Option Command
command_of a b =
    if a == 99
    then (if b == 118
        then some cv
        else if b == 112
        then some cp
        else if b == 114
        then some cr
        else if b == 111
        then some co
        else if b == 109
        then some cm
        else if b == 115
        then some cs
        else if b == 117
        then some cu
        else none)
    else if a == 100
    then (if b == 112 then some dp else if b == 108 then some dl else none)
    else if (a == 109) && (b == 112)
    then some mp
    else if (a == 117) && (b == 112)
    then some up
    else if a == 115
    then (if b == 112 then some sp else if b == 117 then some (prints a b) else none)
    else if (a == 102) && (b == 119)
    then some (prints a b)
    else if a == 106
    then (if (b == 99)
          || ((b == 112)
              || ((b == 111)
                  || ((b == 115) || ((b == 110) || ((b == 101) || ((b == 108) || (b == 97)))))))
        then some (prints a b)
        else none)
    else none

-- A text is the decimal form of a number, as `itoa` writes it.
unfoldable pub is_decimal_of : List ℕ → ℕ → Bool
is_decimal_of [] n = false
is_decimal_of (x ∷ []) n = is_digit x && (x - 48 == n)
is_decimal_of (x ∷ y ∷ rest) n =
    not (x == 48) && (all_digits (x ∷ y ∷ rest) && (digits_value 0 (x ∷ y ∷ rest) == n))

abbrev pub day_of : LogRecord → ℕ
day_of (run_record day run t) = day
day_of (value_record day type count value t) = day

-- The records of the files that are kept when the file with this name is removed.
unfoldable pub without_day : List ℕ → List LogRecord → List LogRecord
without_day name [] = []
without_day name (r ∷ rs) =
    let rest = without_day name rs in if is_decimal_of name (day_of r) then rest else r ∷ rest

abbrev pub starts_all : List ℕ → Bool
starts_all name =
    (head_or_nul name == 97)
    && ((head_or_nul (skip name) == 108) && (head_or_nul (skip (skip name)) == 108))

-- `rmdir` does not remove a folder with files in it, and so no records.
unfoldable pub delete_log : List ℕ → Controller → Controller
delete_log name c =
    if c.options option_enable_logging == 0
    then c
    else if starts_all name
    then c
    else record c { log = without_day name c.log }

abbrev pub key_day : List ℕ
key_day = 100 ∷ 97 ∷ 121 ∷ []

-- `/dl`
unfoldable pub server_delete_log : List ℕ → Controller → Controller × Result
server_delete_log p c = elim (find_nonempty key_day p) [
  | none ↦ (c, html_data_missing)
  | some name ↦ (delete_log name c, html_success)
]

-- The handlers of `urls`.
unfoldable pub run_command : Command → List ℕ → Controller → Controller × Result
run_command cv p c = server_change_values p c
run_command dp p c = server_delete_program p c
run_command cp p c = server_change_program p c
run_command cr p c = server_change_runonce p c
run_command mp p c = server_manual_program p c
run_command up p c = server_moveup_program p c
run_command co p c = server_change_options p c
run_command sp p c = server_change_password p c
run_command cm p c = server_change_manual p c
run_command cs p c = server_change_stations p c
run_command dl p c = server_delete_log p c
run_command cu p c = server_change_scripturl p c
run_command (prints a b) p c = (c, html_ok)

abbrev pub needs_password : ℕ → ℕ → Bool
needs_password a b = not (((a == 115) && (b == 117)) || ((a == 102) && (b == 119)))

-- What the client gets.
pub data Reply : Type 0 where
  home_page page_not_found : Reply
  answered : Result → Reply

abbrev pub reply_of : Controller × Result → Controller × Reply
reply_of (c, r) = (c, answered r)

-- A request "GET /xx?…": the two letters of the command, and the text behind them and the '?'.
unfoldable pub handle_web_request : ℕ → ℕ → List ℕ → Controller → Controller × Reply
handle_web_request a b dat c = if a == 32 then (c, home_page) else elim (command_of a b) [
  | none ↦ (c, page_not_found)
  | some command ↦
      if needs_password a b && not (check_password dat c)
      then (c, answered html_unauthorized)
      else reply_of (run_command command dat c)
]
