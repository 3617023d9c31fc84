-- ===== src/Server/Programs.antt =====
-- The handlers of programs (`/dp`, `/up`, `/cp`).
use indigo_open_sprinkler_pl.Common.{
  ℕ, zero, suc, ◌+◌, ◌-◌, ◌/◌, ◌%◌, Bool, true, false, ◌&&◌, ltb, leb, ◌==◌, if◌then◌else◌, List,
  [], ◌∷◌, Option, none, some, take, ◌++◌, bit_test,
}
use indigo_open_sprinkler_pl.Common.Int.{pos, negsuc}
use indigo_open_sprinkler_pl.Http.{find_nonempty, decoded, find_list, parse_listdata, skip, itoa}
use indigo_open_sprinkler_pl.Program.{
  ProgramStruct, ProgramType, OddEven, weekly, biweekly, monthly, interval, unrestricted, odd, even,
  not_available, drem_to_absolute,
}
use indigo_open_sprinkler_pl.Controller.{Controller, now_tz}
use indigo_open_sprinkler_pl.Controller.Programs.{
  erase_all, add_program, move_up, modify_program, delete_program,
}
use indigo_open_sprinkler_pl.Server.{
  Result, html_success, html_data_missing, html_data_out_of_bound, key_pid, int_of,
}

-- `/dp`; the number of a program that is deleted is a byte, and a number below -1 is one too.
unfoldable pub server_delete_program : List ℕ → Controller → Controller × Result
server_delete_program p c = elim (int_of key_pid p) [
  | none ↦ (c, html_data_missing)
  | some (negsuc zero) ↦ (erase_all c, html_success)
  | some (negsuc (suc n)) ↦ ((delete_program (255 - suc n % 256) c).0, html_success)
  | some (pos pid) ↦
      if ltb pid c.nprograms
      then ((delete_program pid c).0, html_success)
      else (c, html_data_out_of_bound)
]

-- `/up`
unfoldable pub server_moveup_program : List ℕ → Controller → Controller × Result
server_moveup_program p c = elim (int_of key_pid p) [
  | none ↦ (c, html_data_missing)
  | some (negsuc n) ↦ (c, html_data_out_of_bound)
  | some (pos pid) ↦
      if leb 1 pid && ltb pid c.nprograms
      then (move_up pid c, html_success)
      else (c, html_data_out_of_bound)
]

abbrev pub key_name : List ℕ
key_name = 110 ∷ 97 ∷ 109 ∷ 101 ∷ []

-- "Program "
abbrev pub default_name : List ℕ
default_name = 80 ∷ 114 ∷ 111 ∷ 103 ∷ 114 ∷ 97 ∷ 109 ∷ 32 ∷ []

-- The first 20 characters of the name that is given, or a name with the program's number; `rest`
-- lies behind the name in the buffer.
unfoldable pub name_of : List ℕ → List ℕ → ℕ → List ℕ
name_of p rest number = elim (find_nonempty key_name p) [
  | none ↦ default_name ++ itoa number
  | some v ↦ take 20 (decoded v rest)
]

-- The bit fields in the first byte of a program.
abbrev pub oddeven_of : ℕ → OddEven
oddeven_of flag =
    let v = (flag / 4) % 4 in
    if v == 0 then unrestricted else if v == 1 then odd else if v == 2 then even else not_available

abbrev pub type_of : ℕ → ProgramType
type_of flag =
    let v = (flag / 16) % 4 in
    if v == 0 then weekly else if v == 1 then biweekly else if v == 2 then monthly else interval

-- The next n numbers of the list, from the place that is read next.
unfoldable pub read_numbers : ℕ → List ℕ → List ℕ × List ℕ
read_numbers zero pv = ([], pv)
read_numbers (suc n) pv =
    let (v, rest) = parse_listdata pv in let (vs, end) = read_numbers n rest in (v ∷ vs, end)

abbrev pub nth : List ℕ → ℕ → ℕ
nth [] i = 0
nth (v ∷ vs) zero = v
nth (v ∷ vs) (suc i) = nth vs i

abbrev pub is_interval : ProgramType → Bool
is_interval interval = true
is_interval _ = false

-- The program that the text behind "v=[" describes.
unfoldable pub parse_program : List ℕ → ℕ → ℕ → List ℕ → ProgramStruct
parse_program name nstations now pv =
    let (flag, after_flag) = parse_listdata pv in
    let (d0, after_days0) = parse_listdata after_flag in
    let (d1, after_days1) = parse_listdata after_days0 in
    let (starts, after_starts) = read_numbers 4 (skip after_days1) in
    let (durations, end) = read_numbers nstations (skip (skip after_starts)) in
    let absolute = is_interval (type_of flag) && ltb 1 (d1 % 256) in
    record {
      enabled = bit_test flag 0;
      use_weather = bit_test flag 1;
      oddeven = oddeven_of flag;
      type = type_of flag;
      starttime_type = bit_test flag 6;
      days0 = if absolute then drem_to_absolute now (d0 % 256) (d1 % 256) else d0 % 256;
      days1 = d1 % 256;
      starttimes = nth starts;
      durations = nth durations;
      name = name;
    }

-- What the handler answers to `add` and `modify`.
abbrev pub answer : Controller × Bool → Controller × Result
answer (c, true) = (c, html_success)
answer (c, false) = (c, html_data_out_of_bound)

-- `/cp`; `pid` is none for the number -1.
unfoldable pub change_program : List ℕ → Option ℕ → Controller → Controller × Result
change_program p pid c =
    let number : ℕ = elim pid [ none ↦ c.nprograms + 1 | some i ↦ i + 1 ] in
    elim (find_list 100 118 61 (decoded p (c.buffer_rest []))) [
      | none ↦ (c, html_data_missing)
      | some pv ↦
          let prog =
            parse_program (name_of p (c.buffer_rest key_name) number) c.nstations (now_tz c) pv in
          answer (elim pid [ none ↦ add_program prog c | some i ↦ modify_program i prog c ])
    ]

unfoldable pub server_change_program : List ℕ → Controller → Controller × Result
server_change_program p c = elim (int_of key_pid p) [
  | none ↦ (c, html_data_missing)
  | some (negsuc zero) ↦ change_program p none c
  | some (negsuc (suc n)) ↦ (c, html_data_out_of_bound)
  | some (pos pid) ↦
      if ltb pid c.nprograms then change_program p (some pid) c else (c, html_data_out_of_bound)
]
