-- ===== src/Json/Reading.antt =====
-- Lists of numbers and bit fields that are printed and read back (firmware/server.cpp).
use mathlib.Core.List.{append_assoc}
use indigo_open_sprinkler_pl.Common.{
  ℕ, zero, suc, ◌+◌, ◌*◌, ◌/◌, ◌%◌, ◌<◌, ◌≡◌, refl, ◌∙◌, ap, arith, Bool, true, false, ◌==◌, List,
  [], ◌∷◌, ◌++◌,
}
use indigo_open_sprinkler_pl.Http.{parse_listdata}
use indigo_open_sprinkler_pl.Program.{ProgramStruct, ProgramType, OddEven}
use indigo_open_sprinkler_pl.Server.Programs.{read_numbers, nth, type_of, oddeven_of}
use indigo_open_sprinkler_pl.Json.Numbers.{ends_number}
use indigo_open_sprinkler_pl.Json.Programs.{bit, type_bits, oddeven_bits, program_byte, each}

-- Entries i, i + 1, … of an array.
abbrev pub values : (ℕ → ℕ) → ℕ → ℕ → List ℕ
values v i zero = []
values v i (suc n) = v i ∷ values v (suc i) n

pub nth-values : (v : ℕ → ℕ) (n i j : ℕ) → j < n → nth (values v i n) j ≡ v (i + j)
nth-values v zero i j h = absurd (omega arith)
nth-values v (suc n) i zero h = ap v (omega arith)
nth-values v (suc n) i (suc j) h = nth-values v n (suc i) j (omega arith) ∙ ap v (omega arith)

read_one :
    (n : ℕ) {x : ℕ} {xs more rest : List ℕ} (pv : List ℕ)
    → parse_listdata pv ≡ (x, more)
    → read_numbers n more ≡ (xs, rest)
    → read_numbers (suc n) pv ≡ (x ∷ xs, rest)
unfolding read_numbers
read_one n pv a b = rw (read_numbers, a, b)

-- Numbers that are printed one behind the other, each by `show`, with commas between them.
module _ (show : ℕ → List ℕ)
    (read : (u c : ℕ) (rest : List ℕ)
      → u < 65536
      → ends_number c ≡ true
      → parse_listdata (show u ++ (c ∷ rest)) ≡ (u, rest))
    (v : ℕ → ℕ) (small : (i : ℕ) → v i < 65536) where
  pub read_list :
      (n i k c : ℕ) (rest : List ℕ)
      → i + n ≡ k
      → ends_number c ≡ true
      → read_numbers (suc n) (each (λ j. show (v j) ++ 44 ∷ []) i n ++ (show (v k) ++ (c ∷ rest)))
        ≡ (values v i (suc n), rest)
  unfolding read_numbers
  read_list zero i k c rest e h =
      let same : k ≡ i = omega (arith, e) in
      rw same (rw (read_numbers, read (v i) c rest (small i) h))
  read_list (suc n) i k c rest e h =
      rw
        (
          append_assoc (show (v i) ++ 44 ∷ []) (each (λ j. show (v j) ++ 44 ∷ []) (suc i) n)
              (show (v k) ++ (c ∷ rest)),
          append_assoc (show (v i)) (44 ∷ [])
              (each (λ j. show (v j) ++ 44 ∷ []) (suc i) n ++ (show (v k) ++ (c ∷ rest))),
        )
        (read_one (suc n) _
          (read (v i) 44 (each (λ j. show (v j) ++ 44 ∷ []) (suc i) n ++ (show (v k) ++ (c ∷ rest)))
            (small i) refl)
          (read_list n (suc i) k c rest (omega (arith, e)) h))

-- The bit fields of the first byte.
fields :
    (e w s o y : ℕ)
    → e < 2
    → w < 2
    → s < 2
    → o < 4
    → y < 4
    → let flag = e + 2 * w + 4 * o + 16 * y + 64 * s in
      (flag % 2 ≡ e)
      × (flag / 2 % 2 ≡ w)
      × (flag / 4 % 4 ≡ o)
      × (flag / 16 % 4 ≡ y)
      × (flag / 64 % 2 ≡ s)
      × (flag < 128)
fields e w s o y he hw hs ho hy =
    (omega arith, omega arith, omega arith, omega arith, omega arith, omega arith)

bit-lt : (b : Bool) → bit b < 2
bit-lt true = omega arith
bit-lt false = omega arith

pub bit-eq : (b : Bool) (n : ℕ) → n ≡ bit b → (n == 1) ≡ b
bit-eq true n h = ground arith
bit-eq false n h = ground arith

type_bits-lt : (y : ProgramType) → type_bits y < 4
type_bits-lt y = ground arith

oddeven_bits-lt : (o : OddEven) → oddeven_bits o < 4
oddeven_bits-lt o = ground arith

pub type_of-bits : (flag : ℕ) (y : ProgramType) → flag / 16 % 4 ≡ type_bits y → type_of flag ≡ y
type_of-bits flag y h = ground arith

pub oddeven_of-bits : (flag : ℕ) (o : OddEven) → flag / 4 % 4 ≡ oddeven_bits o → oddeven_of flag ≡ o
oddeven_of-bits flag o h = ground arith

pub program_byte-fields :
    (p : ProgramStruct)
    → (program_byte p % 2 ≡ bit p.enabled)
      × (program_byte p / 2 % 2 ≡ bit p.use_weather)
      × (program_byte p / 4 % 4 ≡ oddeven_bits p.oddeven)
      × (program_byte p / 16 % 4 ≡ type_bits p.type)
      × (program_byte p / 64 % 2 ≡ bit p.starttime_type)
      × (program_byte p < 128)
unfolding program_byte
program_byte-fields p =
    fields (bit p.enabled) (bit p.use_weather) (bit p.starttime_type) (oddeven_bits p.oddeven)
      (type_bits p.type) (bit-lt p.enabled) (bit-lt p.use_weather) (bit-lt p.starttime_type)
      (oddeven_bits-lt p.oddeven) (type_bits-lt p.type)
