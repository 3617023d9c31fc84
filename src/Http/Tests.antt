-- ===== src/Http/Tests.antt =====
-- Runs and instances on texts.
use indigo_open_sprinkler_pl.Common.{
  ℕ, List, length, ◌-◌, ◌≤◌, ◌≡◌, ◌++◌, ◌↔◌, refl, arith, true, [], ◌∷◌, some,
}
use indigo_open_sprinkler_pl.Http.{
  find_key_val, find_value, copy_value, url_decode, h2int, parse_listdata, span_number, atol,
  signed_value, digits_value, hex2ulong, hex_value, hex_digit, password_verify, text_of, decoded,
}
use indigo_open_sprinkler_pl.Http.Sizes.{IsEscaped, find_key_val-fits}
use indigo_open_sprinkler_pl.Http.Laws.{password_verify_iff}

-- "%41+b", "-3,9" and the code "1aF".
runs :
    (url_decode (37 ∷ 52 ∷ 49 ∷ 43 ∷ 98 ∷ []) ≡ 65 ∷ 32 ∷ 98 ∷ [])
    × (parse_listdata (45 ∷ 51 ∷ 44 ∷ 57 ∷ []) ≡ (65533, 57 ∷ []))
    × (hex2ulong (49 ∷ 97 ∷ 70 ∷ []) ≡ 431)
unfolding url_decode h2int parse_listdata span_number atol signed_value digits_value hex2ulong
    hex_value hex_digit
runs = (refl, refl, refl)

-- "%" with "41" behind its NUL: the text goes on.
past_nul_run : decoded (37 ∷ []) (52 ∷ 49 ∷ []) ≡ 4 ∷ 49 ∷ []
unfolding url_decode h2int text_of
past_nul_run = refl

-- The name "pw" is found in "npw=x" too: nothing asks what stands before it.
inside_run : find_key_val 255 (112 ∷ 119 ∷ []) (110 ∷ 112 ∷ 119 ∷ 61 ∷ 120 ∷ []) ≡ some (120 ∷ [])
unfolding find_key_val find_value copy_value
inside_run = refl

password_verify_iff_example :
    (password_verify (111 ∷ 115 ∷ []) (111 ∷ 115 ∷ 0 ∷ 120 ∷ []) ≡ true)
    ↔ ((111 ∷ 115 ∷ []) ≡ text_of (111 ∷ 115 ∷ 0 ∷ 120 ∷ []))
password_verify_iff_example =
    password_verify_iff (111 ∷ 115 ∷ []) (111 ∷ 115 ∷ 0 ∷ 120 ∷ [])
      ((λ e. absurd (omega arith)), ((λ e. absurd (omega arith)), tt)) (omega arith)

-- "t=a%20b&"
abbrev encoded : List ℕ
encoded = 116 ∷ 61 ∷ 97 ∷ 37 ∷ 50 ∷ 48 ∷ 98 ∷ 38 ∷ []

find_key_val-fits_example :
    let v : List ℕ = 97 ∷ 37 ∷ 50 ∷ 48 ∷ 98 ∷ [] in
    (5 ≤ 10 - 1)
    × (IsEscaped v
        → (rest : List ℕ)
        → (url_decode (v ++ (0 ∷ rest)) ≡ url_decode v)
          × (length (url_decode (v ++ (0 ∷ rest))) ≤ 5))
unfolding find_key_val find_value copy_value
find_key_val-fits_example =
    find_key_val-fits 10 (116 ∷ []) encoded (97 ∷ 37 ∷ 50 ∷ 48 ∷ 98 ∷ []) refl
