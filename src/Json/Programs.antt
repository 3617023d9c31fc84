-- ===== src/Json/Programs.antt =====
-- The page of programs (`server_json_programs_main` of firmware/server.cpp).
use indigo_open_sprinkler_pl.Common.{
  ℕ, zero, suc, ◌+◌, ◌-◌, ◌*◌, Bool, true, false, ltb, ◌==◌, if◌then◌else◌, List, [], ◌∷◌, ◌++◌,
  take,
}
use indigo_open_sprinkler_pl.Common.Int.{pos}
use indigo_open_sprinkler_pl.Http.{text_of}
use indigo_open_sprinkler_pl.Program.{
  ProgramStruct, ProgramType, OddEven, weekly, biweekly, monthly, interval, unrestricted, odd, even,
  not_available, int16_of, drem_to_relative, max_num_starttimes,
}
use indigo_open_sprinkler_pl.Controller.{Controller, now_tz}
use indigo_open_sprinkler_pl.Controller.Programs.{max_number_programs}
use indigo_open_sprinkler_pl.Json.{codes, emit_p, int, ulong, text}

-- The bit fields of the first byte of a program, from the lowest bit on.
abbrev pub bit : Bool → ℕ
bit false = 0
bit true = 1

abbrev pub type_bits : ProgramType → ℕ
type_bits weekly = 0
type_bits biweekly = 1
type_bits monthly = 2
type_bits interval = 3

abbrev pub oddeven_bits : OddEven → ℕ
oddeven_bits unrestricted = 0
oddeven_bits odd = 1
oddeven_bits even = 2
oddeven_bits not_available = 3

unfoldable pub program_byte : ProgramStruct → ℕ
program_byte p =
    bit p.enabled
    + 2 * bit p.use_weather
    + 4 * oddeven_bits p.oddeven
    + 16 * type_bits p.type
    + 64 * bit p.starttime_type

-- `for (i = first; …; i++)` of n rounds, with the text that is printed.
abbrev pub each : (ℕ → List ℕ) → ℕ → ℕ → List ℕ
each body i zero = []
each body i (suc n) = body i ++ each body (suc i) n

abbrev pub program_name_size : ℕ
program_name_size = 20

-- `days[0]` of an interval program is printed relative to today.
unfoldable pub printed_days0 : ℕ → ProgramStruct → ℕ
printed_days0 now p = elim p.type [
  | interval ↦ if ltb 1 p.days1 then drem_to_relative now p.days0 p.days1 else p.days0
  | _ ↦ p.days0
]

-- The part of a program behind its first '[': flags, days, start times and water times.
unfoldable pub program_numbers : ℕ → ℕ → ProgramStruct → List ℕ
program_numbers nstations now p =
    emit_p (codes "$D,$D,$D,[")
      (int (pos (program_byte p)) ∷ int (pos (printed_days0 now p)) ∷ int (pos p.days1) ∷ [])
    ++ each (λ i. emit_p (codes "$D,") (int (int16_of (p.starttimes i)) ∷ [])) 0
        (max_num_starttimes - 1)
    ++ emit_p (codes "$D],[") (int (int16_of (p.starttimes (max_num_starttimes - 1))) ∷ [])
    ++ each (λ i. emit_p (codes "$L,") (ulong (p.durations i) ∷ [])) 0 (nstations - 1)
    ++ emit_p (codes "$L],\"") (ulong (p.durations (nstations - 1)) ∷ [])

-- One program of the page; `last` says that no other follows.
unfoldable pub program_text : ℕ → ℕ → Bool → ProgramStruct → List ℕ
program_text nstations now last p =
    codes "["
    ++ program_numbers nstations now p
    ++ emit_p (codes "$S") (text (take program_name_size (text_of p.name)) ∷ [])
    ++ (if last then codes "\"]" else codes "\"],")

unfoldable pub server_json_programs_main : Controller → List ℕ
server_json_programs_main c =
    emit_p (codes "\"nprogs\":$D,\"nboards\":$D,\"mnp\":$D,\"mnst\":$D,\"pnsize\":$D,\"pd\":[") (
      int (pos c.nprograms)
      ∷ int (pos c.nboards)
      ∷ int (pos max_number_programs)
      ∷ int (pos max_num_starttimes)
      ∷ int (pos program_name_size)
      ∷ [])
    ++ each (λ pid. program_text c.nstations (now_tz c) (pid == c.nprograms - 1) (c.programs pid)) 0
        c.nprograms
    ++ codes "]}"
