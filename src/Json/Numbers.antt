-- ===== src/Json/Numbers.antt =====
-- Numbers that are printed (firmware/server.cpp) and read back by `parse_listdata`.
use indigo_open_sprinkler_pl.Common.{
  ℕ, zero, suc, ◌+◌, ◌-◌, ◌*◌, ◌/◌, ◌%◌, ◌≤◌, ◌<◌, ◌≡◌, refl, ◌∙◌, ap, arith, Bool, true, not, ◌||◌,
  ◌==◌, List, [], ◌∷◌, ◌++◌, length, dec_lt, lt→ltb, ltb-false,
}
use indigo_open_sprinkler_pl.Common.Int.{pos}
use indigo_open_sprinkler_pl.Program.{int16_of}
use indigo_open_sprinkler_pl.Http.{
  is_digit, all_digits, digits_value, signed_value, negated, atol, span_number, parse_listdata,
}
use indigo_open_sprinkler_pl.Json.{digits, ultoa, print_int}

is_digit_of : (d : ℕ) → d < 10 → is_digit (48 + d) ≡ true
is_digit_of d h = ground arith

-- The value of the digits that are printed, read on from 0.
digits_value-digits :
    (f n : ℕ) (rest : List ℕ) → n < f → digits_value 0 (digits f n rest) ≡ digits_value n rest
unfolding digits digits_value
digits_value-digits zero n rest h = absurd (omega arith)
digits_value-digits (suc f) n rest h = elim (dec_lt n 10) [
  | yes p ↦ rw (digits, lt→ltb n 10 p) (read_digit n rest 0 n p (omega arith))
  | no p ↦
      rw (digits, ltb-false n 10 (omega arith))
        (digits_value-digits f (n / 10) ((48 + n % 10) ∷ rest) (omega arith)
          ∙ read_digit (n % 10) rest (n / 10) n (omega arith) (omega arith))
]
  where
    read_digit :
        (d : ℕ) (xs : List ℕ) (v w : ℕ)
        → d < 10
        → v * 10 + d ≡ w
        → digits_value v ((48 + d) ∷ xs) ≡ digits_value w xs
    read_digit d xs v w lt e =
        rw (digits_value, is_digit_of d lt) (ap (λ k. digits_value k xs) (omega (arith, e)))

digits-all_digits :
    (f n : ℕ) (rest : List ℕ) → all_digits rest ≡ true → all_digits (digits f n rest) ≡ true
unfolding digits all_digits
digits-all_digits zero n rest h = h
digits-all_digits (suc f) n rest h =
    ground (arith, digits-all_digits f (n / 10) ((48 + n % 10) ∷ rest))

-- A bound that grows by ten with each digit.
abbrev power10 : ℕ → ℕ
power10 zero = 1
power10 (suc k) = 10 * power10 k

length-digits :
    (f k n : ℕ) (rest : List ℕ)
    → n < power10 (suc k)
    → length (digits f n rest) ≤ length rest + suc k
unfolding digits
length-digits zero k n rest h = omega arith
length-digits (suc f) zero n rest h = ground arith
length-digits (suc f) (suc k) n rest h = elim (dec_lt n 10) [
  | yes p ↦ rw (digits, lt→ltb n 10 p) (omega arith)
  | no p ↦
      rw (digits, ltb-false n 10 (omega arith))
        (omega (arith, length-digits f k (n / 10) ((48 + n % 10) ∷ rest) (omega arith)))
]

pub ultoa-all_digits : (n : ℕ) → all_digits (ultoa n) ≡ true
unfolding ultoa all_digits
ultoa-all_digits n = digits-all_digits (suc n) n [] refl

digits_value-ultoa : (n : ℕ) → digits_value 0 (ultoa n) ≡ n
unfolding ultoa digits_value
digits_value-ultoa n = digits_value-digits (suc n) n [] (omega arith)

pub length-ultoa : (n : ℕ) → n < 65536 → length (ultoa n) ≤ 5
unfolding ultoa
length-ultoa n h = length-digits (suc n) 4 n [] (omega arith)

-- Digits without a sign are read as their value.
signed_value-digits :
    (ds : List ℕ) → all_digits ds ≡ true → signed_value ds ≡ pos (digits_value 0 ds)
unfolding signed_value all_digits digits_value
signed_value-digits [] a = refl
signed_value-digits (d ∷ ds) a = ground arith

atol-digits : (ds : List ℕ) → all_digits ds ≡ true → atol ds ≡ pos (digits_value 0 ds)
unfolding atol all_digits digits_value
atol-digits [] a = refl
atol-digits (d ∷ ds) a = ground (arith, signed_value-digits (d ∷ ds))

pub atol-ultoa : (n : ℕ) → atol (ultoa n) ≡ pos n
atol-ultoa n = atol-digits (ultoa n) (ultoa-all_digits n) ∙ ap pos (digits_value-ultoa n)

atol-minus : (ds : List ℕ) → atol (45 ∷ ds) ≡ negated (digits_value 0 ds)
unfolding atol signed_value
atol-minus ds = refl

-- What may stand behind a number.
abbrev pub ends_number : ℕ → Bool
ends_number c = not ((c == 45) || ((c == 43) || is_digit c))

span_number-ended :
    (n : ℕ) (ds : List ℕ) (c : ℕ) (rest : List ℕ)
    → all_digits ds ≡ true
    → ends_number c ≡ true
    → length ds ≤ n
    → span_number (suc n) (ds ++ (c ∷ rest)) ≡ (ds, c ∷ rest)
unfolding span_number all_digits
span_number-ended n [] c rest a e h = ground arith
span_number-ended zero (d ∷ ds) c rest a e h = absurd (omega arith)
span_number-ended (suc n) (d ∷ ds) c rest a e h =
    let f : is_digit d ≡ true = ground arith in
    let g : all_digits ds ≡ true = ground arith in
    rw (span_number, span_number-ended n ds c rest g e (omega arith)) (ground arith)

span_number-minus :
    (n : ℕ) (ds : List ℕ) (c : ℕ) (rest : List ℕ)
    → all_digits ds ≡ true
    → ends_number c ≡ true
    → length ds ≤ n
    → span_number (suc (suc n)) (45 ∷ (ds ++ (c ∷ rest))) ≡ (45 ∷ ds, c ∷ rest)
unfolding span_number
span_number-minus n ds c rest a e h = rw (span_number, span_number-ended n ds c rest a e h)

-- A number below 65536 that is printed in front of another character is read back by
-- `parse_listdata`, and the text behind that character is left.
pub parse_listdata-ultoa :
    (n c : ℕ) (rest : List ℕ)
    → n < 65536
    → ends_number c ≡ true
    → parse_listdata (ultoa n ++ (c ∷ rest)) ≡ (n, rest)
unfolding parse_listdata
parse_listdata-ultoa n c rest h e =
    let small : n % 65536 ≡ n = omega arith in
    rw (
      parse_listdata,
      span_number-ended 9 (ultoa n) c rest (ultoa-all_digits n) e (omega (arith, length-ultoa n h)),
      atol-digits (ultoa n) (ultoa-all_digits n),
      digits_value-ultoa n,
      small,
    )

-- So is the value of an `int16_t`, whose bits are read back.
pub parse_listdata-print_int :
    (u c : ℕ) (rest : List ℕ)
    → u < 65536
    → ends_number c ≡ true
    → parse_listdata (print_int (int16_of u) ++ (c ∷ rest)) ≡ (u, rest)
unfolding print_int parse_listdata
parse_listdata-print_int u c rest h e = elim (dec_lt u 32768) [
  | yes p ↦ rw (lt→ltb u 32768 p) (parse_listdata-ultoa u c rest h e)
  | no p ↦ rw (ltb-false u 32768 (omega arith)) (negative (65535 - u) (omega arith) (omega arith))
]
  where
    negative :
        (m : ℕ)
        → m < 32768
        → 65535 - m ≡ u
        → parse_listdata (45 ∷ (ultoa (suc m) ++ (c ∷ rest))) ≡ (u, rest)
    negative m lt f =
        let small : m % 65536 ≡ m = omega arith in
        rw (
          parse_listdata,
          span_number-minus 8 (ultoa (suc m)) c rest (ultoa-all_digits (suc m)) e
              (omega (arith, length-ultoa (suc m) (omega arith))),
          atol-minus (ultoa (suc m)),
          digits_value-ultoa (suc m),
          small,
          f,
        )
