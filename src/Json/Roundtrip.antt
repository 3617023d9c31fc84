-- ===== src/Json/Roundtrip.antt =====
-- A program that is printed (`server_json_programs_main` of firmware/server.cpp) is read back by
-- `server_change_program`.
use mathlib.Core.List.{append_assoc}
use indigo_open_sprinkler_pl.Common.{
  ℕ, suc, ◌-◌, ◌/◌, ◌%◌, ◌<◌, ◌≡◌, refl, ◌∙◌, ap, arith, ◌&&◌, if◌then◌else◌, ltb, List, [], ◌∷◌,
  ◌++◌, bit_test, bit_test-digit, ◌^◌, dec_lt, lt→ltb, ltb-false,
}
use indigo_open_sprinkler_pl.Http.{parse_listdata, skip}
use indigo_open_sprinkler_pl.Program.{
  ProgramStruct, ProgramType, weekly, biweekly, monthly, interval, int16_of, max_num_starttimes,
  drem_to_absolute, drem_to_relative,
}
use indigo_open_sprinkler_pl.Program.Days.{drem_round_trip}
use indigo_open_sprinkler_pl.Server.Programs.{
  read_numbers, nth, parse_program, type_of, oddeven_of, is_interval,
}
use indigo_open_sprinkler_pl.Json.{emit_p, print_argument, print_int, ultoa}
use indigo_open_sprinkler_pl.Json.Numbers.{parse_listdata-ultoa, parse_listdata-print_int}
use indigo_open_sprinkler_pl.Json.Reading.{
  values, nth-values, read_list, bit-eq, type_of-bits, oddeven_of-bits, program_byte-fields,
}
use indigo_open_sprinkler_pl.Json.Programs.{program_byte, printed_days0, program_numbers, each}

-- What the store holds: bytes, numbers of 16 bits, and for an interval program a remainder below the
-- interval.
pub record IsStored (p : ProgramStruct) : Type 0 where
  pub byte0 : p.days0 < 256
  pub byte1 : p.days1 < 256
  pub remainder : p.type ≡ interval → 1 < p.days1 → p.days0 < p.days1
  pub starts : (i : ℕ) → p.starttimes i < 65536
  pub water_times : (i : ℕ) → p.durations i < 65536

-- The printed text, number by number.
program_numbers-eq :
    (n now : ℕ) (p : ProgramStruct) (rest : List ℕ)
    → program_numbers (suc n) now p ++ rest
      ≡ ultoa (program_byte p)
        ++ (44
            ∷ (ultoa (printed_days0 now p)
                ++ (44
                    ∷ (ultoa p.days1
                        ++ (44
                            ∷ 91
                            ∷ (each (λ i. print_int (int16_of (p.starttimes i)) ++ 44 ∷ []) 0 3
                                ++ (print_int (int16_of (p.starttimes 3))
                                    ++ (93
                                        ∷ 44
                                        ∷ 91
                                        ∷ (each (λ i. ultoa (p.durations i) ++ 44 ∷ []) 0 n
                                            ++ (ultoa (p.durations n)
                                                ++ (93 ∷ 44 ∷ 34 ∷ rest)))))))))))
unfolding program_numbers emit_p print_argument print_int
program_numbers-eq n now p rest = let e : suc n - 1 ≡ n = omega arith in rw e (simp (append_assoc))

mod_byte : (n : ℕ) → n < 256 → n % 256 ≡ n
mod_byte n h = omega arith

-- The program that is made of the numbers that were read.
abbrev program_of : List ℕ → ℕ → ℕ → ℕ → ℕ → List ℕ → List ℕ → ProgramStruct
program_of name now flag d0 d1 starts durations = record {
  enabled = bit_test flag 0;
  use_weather = bit_test flag 1;
  oddeven = oddeven_of flag;
  type = type_of flag;
  starttime_type = bit_test flag 6;
  days0 =
      if is_interval (type_of flag) && ltb 1 (d1 % 256)
      then drem_to_absolute now (d0 % 256) (d1 % 256)
      else d0 % 256;
  days1 = d1 % 256;
  starttimes = nth starts;
  durations = nth durations;
  name = name;
}

parse_program-parts :
    (name : List ℕ) (n now flag d0 d1 : ℕ) (starts durations pv r1 r2 r3 r4 r5 : List ℕ)
    → parse_listdata pv ≡ (flag, r1)
    → parse_listdata r1 ≡ (d0, r2)
    → parse_listdata r2 ≡ (d1, r3)
    → read_numbers 4 (skip r3) ≡ (starts, r4)
    → read_numbers n (skip (skip r4)) ≡ (durations, r5)
    → parse_program name n now pv ≡ program_of name now flag d0 d1 starts durations
unfolding parse_program
parse_program-parts name n now flag d0 d1 starts durations pv r1 r2 r3 r4 r5 a b c d e =
    rw (parse_program, a, b, c, d, e)

printed_days0-lt : (now : ℕ) (p : ProgramStruct) → IsStored p → printed_days0 now p < 256
unfolding printed_days0 drem_to_relative
printed_days0-lt now p h = ground (arith, h.byte0)

-- The day that is printed relative to today is stored as it was.
days0-back :
    (now : ℕ) (p : ProgramStruct)
    → IsStored p
    → (if is_interval p.type && ltb 1 p.days1
        then drem_to_absolute now (printed_days0 now p) p.days1
        else printed_days0 now p)
      ≡ p.days0
unfolding printed_days0
days0-back now p h = back p.type h.remainder
  where
    printed : ProgramType → ℕ
    printed y = elim y [
      | interval ↦ if ltb 1 p.days1 then drem_to_relative now p.days0 p.days1 else p.days0
      | _ ↦ p.days0
    ]

    back :
        (y : ProgramType)
        → (y ≡ interval → 1 < p.days1 → p.days0 < p.days1)
        → (if is_interval y && ltb 1 p.days1
            then drem_to_absolute now (printed y) p.days1
            else printed y)
          ≡ p.days0
    back weekly r = refl
    back biweekly r = refl
    back monthly r = refl
    back interval r = elim (dec_lt 1 p.days1) [
      | yes lt ↦
          rw (lt→ltb 1 p.days1 lt)
            (drem_round_trip now p.days1 (omega arith) h.byte1 p.days0 (r refl lt)).1
      | no ge ↦ rw (ltb-false 1 p.days1 (omega arith))
    ]

-- A stored program that is printed on the page of programs and sent back on the same day is read as
-- the same program: the same flags, type and days, the same four start times and the same water time
-- of every station, with the name that the request gives it, whatever text follows the numbers.
pub parse_program-program_numbers :
    (name rest : List ℕ) (n now : ℕ) (p : ProgramStruct)
    → IsStored p
    → let q = parse_program name (suc n) now (program_numbers (suc n) now p ++ rest) in
      (q.enabled ≡ p.enabled)
      × (q.use_weather ≡ p.use_weather)
      × (q.oddeven ≡ p.oddeven)
      × (q.type ≡ p.type)
      × (q.starttime_type ≡ p.starttime_type)
      × (q.days0 ≡ p.days0)
      × (q.days1 ≡ p.days1)
      × ((i : ℕ) → i < max_num_starttimes → q.starttimes i ≡ p.starttimes i)
      × ((sid : ℕ) → sid < suc n → q.durations sid ≡ p.durations sid)
      × (q.name ≡ name)
parse_program-program_numbers name rest n now p h =
    let f = program_byte-fields p in
    let t = type_of-bits (program_byte p) p.type f.3 in
    let small : program_byte p < 256 = omega (arith, f.5) in
    (
      ap (λ q. q.enabled) whole
          ∙ bit_test-digit (program_byte p) 0 small (omega arith)
          ∙ bit-eq p.enabled (program_byte p / 2 ^ 0 % 2) (omega (arith, f.0)),
      ap (λ q. q.use_weather) whole
          ∙ bit_test-digit (program_byte p) 1 small (omega arith)
          ∙ bit-eq p.use_weather (program_byte p / 2 ^ 1 % 2) (omega (arith, f.1)),
      ap (λ q. q.oddeven) whole ∙ oddeven_of-bits (program_byte p) p.oddeven f.2,
      ap (λ q. q.type) whole ∙ t,
      ap (λ q. q.starttime_type) whole
          ∙ bit_test-digit (program_byte p) 6 small (omega arith)
          ∙ bit-eq p.starttime_type (program_byte p / 2 ^ 6 % 2) (omega (arith, f.4)),
      ap (λ q. q.days0) whole
          ∙ rw
              (
                t,
                mod_byte (printed_days0 now p) (printed_days0-lt now p h),
                mod_byte p.days1 h.byte1,
              )
              (days0-back now p h),
      ap (λ q. q.days1) whole ∙ mod_byte p.days1 h.byte1,
      λ i lt.
          ap (λ q. q.starttimes i) whole
          ∙ nth-values p.starttimes 4 0 i lt
          ∙ ap p.starttimes (omega arith),
      λ sid lt.
          ap (λ q. q.durations sid) whole
          ∙ nth-values p.durations (suc n) 0 sid lt
          ∙ ap p.durations (omega arith),
      ap (λ q. q.name) whole,
    )
  where
    starts : List ℕ
    starts = values p.starttimes 0 4

    durations : List ℕ
    durations = values p.durations 0 (suc n)

    whole :
        parse_program name (suc n) now (program_numbers (suc n) now p ++ rest)
        ≡ program_of name now (program_byte p) (printed_days0 now p) p.days1 starts durations
    whole =
        ap (parse_program name (suc n) now) (program_numbers-eq n now p rest)
        ∙ parse_program-parts name (suc n) now (program_byte p) (printed_days0 now p) p.days1 starts
            durations _ _ _ _ _ _
            (parse_listdata-ultoa (program_byte p) 44 _ (omega (arith, (program_byte-fields p).5))
              refl)
            (parse_listdata-ultoa (printed_days0 now p) 44 _
              (omega (arith, printed_days0-lt now p h)) refl)
            (parse_listdata-ultoa p.days1 44 _ (omega (arith, h.byte1)) refl)
            (read_list (λ u. print_int (int16_of u)) parse_listdata-print_int p.starttimes h.starts
              3 0 3 93 _ refl refl)
            (read_list ultoa parse_listdata-ultoa p.durations h.water_times n 0 n 93 _ (omega arith)
              refl)
