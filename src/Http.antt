-- ===== src/Http.antt =====
-- Text of a request: firmware/server.cpp (`findKeyVal`, `urlDecode`, `parse_listdata`) and
-- OpenSprinkler.cpp (`hex2ulong`, `password_verify`). A text is the list of the bytes in memory from
-- a pointer on; the bytes behind the list are NULs. `long` is not bounded in `atol`.
pub mod Laws
pub mod Find
pub mod Sizes
mod Tests
use indigo_open_sprinkler_pl.Common.{
  ℕ, zero, suc, ◌+◌, ◌-◌, ◌*◌, ◌/◌, ◌%◌, Bool, true, false, not, ◌&&◌, ◌||◌, ltb, leb, ◌==◌,
  if◌then◌else◌, List, [], ◌∷◌, Option, none, some, take, length, ◌++◌,
}
use indigo_open_sprinkler_pl.Common.Int.{ℤ, pos, negsuc, pos_part, neg_part}
use indigo_open_sprinkler_pl.WaterTime.{ulong_mod}

abbrev pub tmp_buffer_size : ℕ
tmp_buffer_size = 255

-- Where `findKeyVal` stops looking: NUL, a space, the end of the line.
abbrev pub ends_search : ℕ → Bool
ends_search c = (c == 0) || ((c == 32) || (c == 10))

-- The search for the key and '='; `kp` is what is left of the key to match. When the key is not
-- followed by '=', the byte behind it is skipped without a look.
unfoldable pub find_value : List ℕ → List ℕ → List ℕ → Option (List ℕ)
find_value key kp [] = none
find_value key [] (c ∷ cs) = elim (ends_search c) [ true ↦ none | false ↦ find_value key key cs ]
find_value key (k ∷ []) (c ∷ []) = none
find_value key (k ∷ []) (c ∷ d ∷ ds) = elim (ends_search c) [
  | true ↦ none
  | false ↦ elim (c == k) [
    | true ↦ elim (d == 61) [ true ↦ some ds | false ↦ find_value key key ds ]
    | false ↦ find_value key key (d ∷ ds)
  ]
]
find_value key (k ∷ l ∷ ks) (c ∷ cs) = elim (ends_search c) [
  | true ↦ none
  | false ↦ elim (c == k) [ true ↦ find_value key (l ∷ ks) cs | false ↦ find_value key key cs ]
]

-- The value up to its end or to n bytes.
unfoldable pub copy_value : ℕ → List ℕ → List ℕ
copy_value zero s = []
copy_value (suc n) [] = []
copy_value (suc n) (c ∷ cs) = if ends_search c || (c == 38) then [] else c ∷ copy_value n cs

-- `findKeyVal`: the value that is copied, if the key is found; its length is what the source
-- returns.
unfoldable pub find_key_val : ℕ → List ℕ → List ℕ → Option (List ℕ)
find_key_val maxlen key str = elim (find_value key key str) [
  | none ↦ none
  | some rest ↦ some (copy_value (maxlen - 1) rest)
]

-- The test `if (findKeyVal(…))`: a value that is not empty.
unfoldable pub find_nonempty : List ℕ → List ℕ → Option (List ℕ)
find_nonempty key str = elim (find_key_val tmp_buffer_size key str) [
  | none ↦ none
  | some [] ↦ none
  | some (c ∷ cs) ↦ some (c ∷ cs)
]

unfoldable pub h2int : ℕ → ℕ
h2int c =
    if leb 48 c && leb c 57
    then c - 48
    else if leb 97 c && leb c 102
    then c - 97 + 10
    else if leb 65 c && leb c 70
    then c - 65 + 10
    else 0

-- `urlDecode`, up to the first NUL that it does not step over; the list is the memory from the text
-- on, its NUL included. A '%' at the end of the text takes the NUL for a digit, and the decoding goes
-- on with what lies behind it.
unfoldable pub url_decode : List ℕ → List ℕ
url_decode [] = []
url_decode (c ∷ []) = if c == 0 then [] else (if c == 43 then 32 else if c == 37 then 0 else c) ∷ []
url_decode (c ∷ d ∷ []) =
    let rest = url_decode (d ∷ []) in
    if c == 0
    then []
    else if c == 37
    then (h2int d * 16) ∷ []
    else (if c == 43 then 32 else c) ∷ rest
url_decode (c ∷ d ∷ e ∷ rest) = elim (c == 0) [
  | true ↦ []
  | false ↦ elim (c == 37) [
    | true ↦ (h2int d * 16 + h2int e) ∷ url_decode rest
    | false ↦ (if c == 43 then 32 else c) ∷ url_decode (d ∷ e ∷ rest)
  ]
]

-- `strlen` bytes of a buffer.
unfoldable pub text_of : List ℕ → List ℕ
text_of [] = []
text_of (c ∷ cs) = if c == 0 then [] else c ∷ text_of cs

-- The text in a buffer once it is decoded; `rest` lies behind the NUL of the text.
abbrev pub decoded : List ℕ → List ℕ → List ℕ
decoded text rest = text_of (url_decode (text ++ (0 ∷ rest)))

abbrev pub is_digit : ℕ → Bool
is_digit c = leb 48 c && leb c 57

unfoldable pub all_digits : List ℕ → Bool
all_digits [] = true
all_digits (x ∷ xs) = is_digit x && all_digits xs

-- The value of the digits that a text starts with, behind the value v of those before them.
unfoldable pub digits_value : ℕ → List ℕ → ℕ
digits_value v [] = v
digits_value v (c ∷ cs) = elim (is_digit c) [
  | true ↦ digits_value (v * 10 + (c - 48)) cs
  | false ↦ v
]

abbrev pub negated : ℕ → ℤ
negated zero = pos 0
negated (suc n) = negsuc n

unfoldable pub signed_value : List ℕ → ℤ
signed_value [] = pos 0
signed_value (c ∷ cs) =
    if c == 45
    then negated (digits_value 0 cs)
    else if c == 43
    then pos (digits_value 0 cs)
    else pos (digits_value 0 (c ∷ cs))

-- `atoi` and `atol` of the C library: white space, a sign and digits.
unfoldable pub atol : List ℕ → ℤ
atol [] = pos 0
atol (c ∷ cs) = elim ((c == 32) || (leb 9 c && leb c 13)) [
  | true ↦ atol cs
  | false ↦ signed_value (c ∷ cs)
]

-- `itoa` to base 10, for a number below 1000.
unfoldable pub itoa : ℕ → List ℕ
itoa n =
    if ltb n 10
    then (48 + n) ∷ []
    else if ltb n 100
    then (48 + n / 10) ∷ (48 + n % 10) ∷ []
    else (48 + n / 100) ∷ (48 + (n / 10) % 10) ∷ (48 + n % 10) ∷ []

-- At most n characters that may stand in a number, and the text behind them.
unfoldable pub span_number : ℕ → List ℕ → List ℕ × List ℕ
span_number zero s = ([], s)
span_number (suc n) [] = ([], [])
span_number (suc n) (c ∷ cs) =
    let (number, rest) = span_number n cs in
    if (c == 45) || ((c == 43) || is_digit c) then (c ∷ number, rest) else ([], c ∷ cs)

abbrev pub skip : List ℕ → List ℕ
skip [] = []
skip (c ∷ cs) = cs

-- The low 16 bits of a number.
abbrev pub to_uint16 : ℤ → ℕ
to_uint16 (pos n) = n % 65536
to_uint16 (negsuc n) = 65535 - n % 65536

-- The number, and the text behind the character that follows it.
unfoldable pub parse_listdata : List ℕ → ℕ × List ℕ
parse_listdata p = let (number, rest) = span_number 10 p in (to_uint16 (atol number), skip rest)

-- The text from the place on where the three characters stand, if within the first n ones.
unfoldable pub find_list : ℕ → ℕ → ℕ → List ℕ → Option (List ℕ)
find_list n a b [] = none
find_list zero a b (c ∷ cs) = none
find_list (suc n) a b (c ∷ cs) = elim (c == 0) [
  | true ↦ none
  | false ↦ find_list_at n a b c cs (find_list n a b cs)
]
  where
    find_list_at : ℕ → ℕ → ℕ → ℕ → List ℕ → Option (List ℕ) → Option (List ℕ)
    find_list_at n a b c (d ∷ e ∷ rest) later =
        if (c == a) && ((d == b) && (e == 91)) then some rest else later
    find_list_at n a b c cs later = later

-- The value of a hexadecimal digit, if it is one.
unfoldable pub hex_digit : ℕ → Option ℕ
hex_digit c =
    if leb 48 c && leb c 57
    then some (c - 48)
    else if leb 65 c && leb c 70
    then some (10 + (c - 65))
    else if leb 97 c && leb c 102
    then some (10 + (c - 97))
    else none

-- The loop of `hex2ulong` with the value so far; 0 on a character that is no digit.
unfoldable pub hex_value : ℕ → List ℕ → ℕ
hex_value v [] = v
hex_value v (c ∷ cs) = elim (hex_digit c) [
  | none ↦ 0
  | some d ↦ hex_value ((v * 16) % ulong_mod + d) cs
]

unfoldable pub hex2ulong : List ℕ → ℕ
hex2ulong code = hex_value 0 code

-- `RFStationData`
pub record RfStationData : Type 0 where
  pub on : List ℕ
  pub off : List ℕ
  pub timing : List ℕ

-- The timing (0 for an error), and the two codes that are written.
unfoldable pub parse_rfstation_code : RfStationData → ℕ × Option ℕ × Option ℕ
parse_rfstation_code codes =
    let v = hex2ulong codes.on in
    let w = hex2ulong codes.off in
    let t = hex2ulong codes.timing in
    if v == 0
    then (0, none, none)
    else if w == 0
    then (0, some v, none)
    else if t == 0
    then (0, some v, some w)
    else (t % 65536, some v, some w)

abbrev pub head_or_nul : List ℕ → ℕ
head_or_nul [] = 0
head_or_nul (c ∷ cs) = c

-- `password_verify`, with at most n of the stored bytes left to read.
unfoldable pub verify : ℕ → List ℕ → List ℕ → Bool
verify zero stored pw = 0 == head_or_nul pw
verify (suc n) stored pw =
    let c1 = head_or_nul stored in
    let c2 = head_or_nul pw in
    elim ((c1 == 0) || (c2 == 0)) [
      | true ↦ c1 == c2
      | false ↦ elim (c1 == c2) [ true ↦ verify n (skip stored) (skip pw) | false ↦ false ]
    ]

abbrev pub max_user_password : ℕ
max_user_password = 36

unfoldable pub password_verify : List ℕ → List ℕ → Bool
password_verify stored pw = verify max_user_password stored pw
