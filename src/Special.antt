-- ===== src/Special.antt =====
-- What special stations are sent (firmware/OpenSprinkler.cpp: `switch_remotestation`,
-- `switch_httpstation`, `switch_gpiostation`), in the build for Linux. A request is the text that is
-- written to the other host; finding the host and connecting to it are left out.
pub mod Scan
pub mod Remote
pub mod Answer
mod Tests
use indigo_open_sprinkler_pl.Common.{
  ℕ, zero, suc, ◌+◌, ◌-◌, ◌*◌, ◌%◌, Bool, true, false, ◌==◌, if◌then◌else◌, List, [], ◌∷◌, ◌++◌,
  Option, none, some,
}
use indigo_open_sprinkler_pl.Common.Int.{pos}
use indigo_open_sprinkler_pl.Runtime.{max_num_stations}
use indigo_open_sprinkler_pl.Controller.{Controller}
use indigo_open_sprinkler_pl.Controller.OptionIndex.{option_spe_auto_refresh}
use indigo_open_sprinkler_pl.Http.{hex2ulong}
use indigo_open_sprinkler_pl.Json.{codes, emit_p, int, text}

-- `RemoteStationData`
pub record RemoteStationData : Type 0 where
  pub ip : List ℕ
  pub port : List ℕ
  pub sid : List ℕ

-- The seconds that a remote station is asked to run: the refresh cycle, or the most a `uint16_t`
-- holds.
unfoldable pub remote_timer : Controller → ℕ
remote_timer c = if c.options option_spe_auto_refresh == 0 then 65535 else 2 * max_num_stations

-- What stands behind "GET /cm?".
unfoldable pub remote_query : RemoteStationData → Bool → Controller → List ℕ
remote_query station turnon c =
    emit_p (codes "pw=$E&sid=$D&en=$D&t=$D") (
      text c.texts.password
      ∷ int (pos (hex2ulong station.sid))
      ∷ int (pos (if turnon then 1 else 0))
      ∷ int (pos (remote_timer c))
      ∷ [])
    ++ codes " HTTP/1.0\r\nHOST: *\r\n\r\n"

-- The host's address and port, and the request.
unfoldable pub switch_remotestation : RemoteStationData → Bool → Controller → ℕ × ℕ × List ℕ
switch_remotestation station turnon c = (
  hex2ulong station.ip,
  hex2ulong station.port % 65536,
  codes "GET /cm?" ++ remote_query station turnon c,
)

-- The pin, and the level that it is set to; the digits are bytes.
unfoldable pub switch_gpiostation : ℕ → ℕ → ℕ → Bool → ℕ × ℕ
switch_gpiostation tens ones active turnon =
    let gpio = ((tens + 256 - 48) * 10 + (ones + 256 - 48)) % 256 in
    let level = (active + 256 - 48) % 256 in
    if turnon then (gpio, level) else (gpio, (257 - level) % 256)

-- The text up to the next comma, and the text behind it.
unfoldable pub until_comma : List ℕ → List ℕ × List ℕ
until_comma [] = ([], [])
until_comma (c ∷ cs) =
    let (word, rest) = until_comma cs in
    if c == 0 then ([], c ∷ cs) else if c == 44 then ([], cs) else (c ∷ word, rest)

-- `strtok` with ",": commas in front are skipped; nothing at the end of the text.
unfoldable pub strtok : List ℕ → Option (List ℕ × List ℕ)
strtok [] = none
strtok (c ∷ cs) =
    let later = strtok cs in
    if c == 0 then none else if c == 44 then later else some (until_comma (c ∷ cs))

-- The word behind a number of others.
unfoldable pub nth_word : ℕ → List ℕ → Option (List ℕ)
nth_word zero station = elim (strtok station) [ none ↦ none | some (word, rest) ↦ some word ]
nth_word (suc n) station = elim (strtok station) [
  | none ↦ none
  | some (word, rest) ↦ nth_word n rest
]

-- The server's name, its port and the command of an HTTP station; each is nothing if it is missing.
unfoldable pub http_parts : List ℕ → Bool → Option (List ℕ) × Option (List ℕ) × Option (List ℕ)
http_parts station turnon =
    (nth_word 0 station, nth_word 1 station, nth_word (if turnon then 2 else 3) station)

-- `h_name` is the name of the host that is found for the server.
unfoldable pub http_request : List ℕ → List ℕ → List ℕ
http_request cmd h_name =
    codes "GET /" ++ cmd ++ codes " HTTP/1.0\r\nHOST: " ++ h_name ++ codes "\r\n\r\n"
