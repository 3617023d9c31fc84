-- ===== src/Http/Laws.antt =====
-- Passwords and numbers in requests (firmware/OpenSprinkler.cpp, server.cpp).
use indigo_open_sprinkler_pl.Common.{
  ℕ, zero, suc, ◌+◌, ◌%◌, ◌≤◌, ◌<◌, ◌≡◌, ◌≢◌, ◌↔◌, refl, arith, true, List, [], ◌∷◌, ◌++◌, length,
  dec_lt,
}
use indigo_open_sprinkler_pl.Common.Int.{pos}
use indigo_open_sprinkler_pl.Http.{
  verify, password_verify, max_user_password, text_of, itoa, span_number, parse_listdata, atol,
  signed_value, digits_value, is_digit, all_digits,
}

-- The text has no NUL.
abbrev pub HasNoNul : List ℕ → Type 0
HasNoNul [] = Unit
HasNoNul (x ∷ xs) = (x ≢ 0) × HasNoNul xs

verify-true :
    (n : ℕ) (stored pw : List ℕ)
    → HasNoNul stored
    → length stored ≤ n
    → verify n stored pw ≡ true
    → stored ≡ text_of pw
unfolding verify text_of
verify-true zero [] [] p h e = refl
verify-true zero [] (y ∷ ys) p h e = ground arith
verify-true zero (x ∷ xs) pw p h e = absurd (omega arith)
verify-true (suc n) [] [] p h e = refl
verify-true (suc n) [] (y ∷ ys) p h e = ground arith
verify-true (suc n) (x ∷ xs) [] p h e = ground arith
verify-true (suc n) (x ∷ xs) (y ∷ ys) p h e = ground (arith, verify-true n xs ys p.1 (omega arith))

verify_refl :
    (n : ℕ) (stored pw : List ℕ)
    → HasNoNul stored
    → length stored ≤ n
    → stored ≡ text_of pw
    → verify n stored pw ≡ true
unfolding verify text_of
verify_refl zero [] [] p h e = refl
verify_refl zero [] (y ∷ ys) p h e = ground arith
verify_refl zero (x ∷ xs) pw p h e = absurd (omega arith)
verify_refl (suc n) [] [] p h e = refl
verify_refl (suc n) [] (y ∷ ys) p h e = ground arith
verify_refl (suc n) (x ∷ xs) [] p h e = ground arith
verify_refl (suc n) (x ∷ xs) (y ∷ ys) p h e = ground (arith, verify_refl n xs ys p.1 (omega arith))

-- A password of at most 36 characters is accepted exactly if it is, to the character, the one that
-- is stored.
pub password_verify_iff :
    (stored pw : List ℕ)
    → HasNoNul stored
    → length stored ≤ max_user_password
    → (password_verify stored pw ≡ true) ↔ (stored ≡ text_of pw)
unfolding password_verify
password_verify_iff stored pw p h = (verify-true 36 stored pw p h, verify_refl 36 stored pw p h)

digit-is_digit : (d : ℕ) → d < 10 → is_digit (48 + d) ≡ true
digit-is_digit d h = ground arith

span_number-digits :
    (n : ℕ) (ds rest : List ℕ)
    → all_digits ds ≡ true
    → length ds ≤ n
    → span_number (suc n) (ds ++ (44 ∷ rest)) ≡ (ds, 44 ∷ rest)
unfolding span_number all_digits
span_number-digits n [] rest a h = refl
span_number-digits (suc n) (d ∷ ds) rest a h =
    let e : is_digit d ≡ true = ground arith in
    let f : all_digits ds ≡ true = ground arith in
    rw (span_number, span_number-digits n ds rest f (omega arith)) (ground arith)
span_number-digits zero (d ∷ ds) rest a h = absurd (omega arith)

itoa-digits : (n : ℕ) → n < 1000 → (all_digits (itoa n) ≡ true) × (length (itoa n) ≤ 3)
unfolding itoa all_digits
itoa-digits n h = (ground arith, ground arith)

atol-itoa : (n : ℕ) → n < 1000 → atol (itoa n) ≡ pos n
unfolding itoa atol signed_value digits_value
atol-itoa n h = elim (dec_lt n 10) [
  | yes a ↦ ground arith
  | no a ↦ elim (dec_lt n 100) [ yes b ↦ ground arith | no b ↦ ground arith ]
]

-- A number below 1000 that is printed in front of a comma is read back, and the text behind the
-- comma is left.
pub parse_listdata-itoa :
    (n : ℕ) (rest : List ℕ) → n < 1000 → parse_listdata (itoa n ++ (44 ∷ rest)) ≡ (n, rest)
unfolding parse_listdata
parse_listdata-itoa n rest h =
    let small : n % 65536 ≡ n = omega arith in
    let d = itoa-digits n h in
    rw (parse_listdata, span_number-digits 9 (itoa n) rest d.0 (omega arith), atol-itoa n h, small)
