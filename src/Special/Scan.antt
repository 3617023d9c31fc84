-- ===== src/Special/Scan.antt =====
-- Where `findKeyVal` finds a name behind text that it does not stand in.
use indigo_open_sprinkler_pl.Common.{
  ℕ, zero, suc, ◌≤◌, ◌<◌, ◌≡◌, ◌≢◌, refl, ap, arith, Bool, true, false, ◌&&◌, ◌||◌, leb, ◌==◌, List,
  [], ◌∷◌, ◌++◌, ◌∙◌, length, ==_ne, ℕ_discrete,
}
use indigo_open_sprinkler_pl.Http.{
  ends_search, find_value, copy_value, url_decode, text_of, decoded, all_digits,
}
use indigo_open_sprinkler_pl.Http.Sizes.{IsEscaped, url_decode-IsEscaped}
use indigo_open_sprinkler_pl.Http.Find.{IsValue}

-- A digit of a hash: 0 to 9, a to f.
abbrev pub is_hex : ℕ → Bool
is_hex c = (leb 48 c && leb c 57) || (leb 97 c && leb c 102)

-- All characters are digits of a hash.
abbrev pub IsHash : List ℕ → Type 0
IsHash [] = Unit
IsHash (x ∷ xs) = (is_hex x ≡ true) × IsHash xs

hex-ends : (x : ℕ) → is_hex x ≡ true → ends_search x ≡ false
hex-ends x h = ground arith

pub digits-IsHash : (xs : List ℕ) → all_digits xs ≡ true → IsHash xs
unfolding all_digits
digits-IsHash [] h = tt
digits-IsHash (x ∷ xs) h = (ground arith, digits-IsHash xs (ground arith))

-- A name of two characters or more whose first one is no hexadecimal digit.
pub find_value-hash :
    (k l : ℕ) (ks xs rest : List ℕ)
    → 102 < k
    → IsHash xs
    → find_value (k ∷ l ∷ ks) (k ∷ l ∷ ks) (xs ++ rest) ≡ find_value (k ∷ l ∷ ks) (k ∷ l ∷ ks) rest
unfolding find_value
find_value-hash k l ks [] rest h p = refl
find_value-hash k l ks (x ∷ xs) rest h p =
    let ne : x ≢ k = λ e. absurd (ground (arith, p.0)) in
    rw (find_value, hex-ends x p.0, ==_ne x k ne) (find_value-hash k l ks xs rest h p.1)

-- A name of one character.
pub find_value-hash_one :
    (k c : ℕ) (xs rest : List ℕ)
    → 102 < k
    → IsHash xs
    → find_value (k ∷ []) (k ∷ []) (xs ++ (c ∷ rest)) ≡ find_value (k ∷ []) (k ∷ []) (c ∷ rest)
unfolding find_value
find_value-hash_one k c [] rest h p = refl
find_value-hash_one k c (x ∷ []) rest h p =
    let ne : x ≢ k = λ e. absurd (ground (arith, p.0)) in
    rw (find_value, hex-ends x p.0, ==_ne x k ne) refl
find_value-hash_one k c (x ∷ y ∷ ys) rest h p =
    let ne : x ≢ k = λ e. absurd (ground (arith, p.0)) in
    rw (find_value, hex-ends x p.0, ==_ne x k ne) (find_value-hash_one k c (y ∷ ys) rest h p.1)

pub hash-IsValue : (xs : List ℕ) → IsHash xs → IsValue xs
hash-IsValue [] p = tt
hash-IsValue (x ∷ xs) p = (hex-ends x p.0, ground (arith, p.0), hash-IsValue xs p.1)

pub text_of-hash : (xs : List ℕ) → IsHash xs → text_of xs ≡ xs
unfolding text_of
text_of-hash [] p = refl
text_of-hash (x ∷ xs) p =
    let ne : x ≢ 0 = ground (arith, p.0) in rw (==_ne x 0 ne, text_of-hash xs p.1)

hash-IsEscaped : (xs : List ℕ) → IsHash xs → IsEscaped xs
hash-IsEscaped [] p = tt
hash-IsEscaped (c ∷ []) p = ground (arith, p.0)
hash-IsEscaped (c ∷ d ∷ []) p = (ground (arith, p.0), ground (arith, p.1.0))
hash-IsEscaped (c ∷ d ∷ e ∷ rest) p =
    ((λ percent. absurd (ground (arith, p.0))), λ ne. hash-IsEscaped (d ∷ e ∷ rest) p.1)

url_decode-hash : (xs : List ℕ) → IsHash xs → url_decode xs ≡ xs
unfolding url_decode
url_decode-hash [] p = refl
url_decode-hash (c ∷ []) p = ground (arith, p.0)
url_decode-hash (c ∷ d ∷ []) p = ground (arith, p.0, url_decode-hash (d ∷ []) p.1)
url_decode-hash (c ∷ d ∷ e ∷ rest) p =
    let nul : c ≢ 0 = ground (arith, p.0) in
    let percent : c ≢ 37 = ground (arith, p.0) in
    let plus : c ≢ 43 = ground (arith, p.0) in
    rw
      (
        url_decode,
        ==_ne c 0 nul,
        ==_ne c 37 percent,
        ==_ne c 43 plus,
        url_decode-hash (d ∷ e ∷ rest) p.1,
      )
      refl

-- A hash is decoded to itself, whatever lies behind it in the buffer.
pub decoded-hash : (xs rest : List ℕ) → IsHash xs → decoded xs rest ≡ xs
decoded-hash xs rest p =
    ap text_of (url_decode-IsEscaped xs rest (hash-IsEscaped xs p) ∙ url_decode-hash xs p)
    ∙ text_of-hash xs p

-- The value of a name that is followed by a space.
pub copy_value-space :
    (n : ℕ) (xs rest : List ℕ) → length xs ≤ n → IsHash xs → copy_value n (xs ++ (32 ∷ rest)) ≡ xs
unfolding copy_value
copy_value-space zero [] rest h p = refl
copy_value-space (suc n) [] rest h p = refl
copy_value-space zero (x ∷ xs) rest h p = absurd (omega arith)
copy_value-space (suc n) (x ∷ xs) rest h p =
    let ne : x ≢ 38 = ground (arith, p.0) in
    rw (hex-ends x p.0, ==_ne x 38 ne, copy_value-space n xs rest (omega arith) p.1) refl

-- The value of a name that is followed by another one.
pub copy_value-next :
    (n : ℕ) (xs rest : List ℕ) → length xs ≤ n → IsHash xs → copy_value n (xs ++ (38 ∷ rest)) ≡ xs
unfolding copy_value
copy_value-next zero [] rest h p = refl
copy_value-next (suc n) [] rest h p = refl
copy_value-next zero (x ∷ xs) rest h p = absurd (omega arith)
copy_value-next (suc n) (x ∷ xs) rest h p =
    let ne : x ≢ 38 = ground (arith, p.0) in
    rw (hex-ends x p.0, ==_ne x 38 ne, copy_value-next n xs rest (omega arith) p.1) refl

-- The name "en", whose first letter may stand in a hash, also when it has just been read.
pub find_value-hash_en :
    (xs : List ℕ) (d : ℕ) (ds : List ℕ)
    → IsHash xs
    → let en : List ℕ = 101 ∷ 110 ∷ [] in
      (find_value en en (xs ++ (38 ∷ d ∷ ds)) ≡ find_value en en (d ∷ ds))
      × (find_value en (110 ∷ []) (xs ++ (38 ∷ d ∷ ds)) ≡ find_value en en (d ∷ ds))
unfolding find_value
find_value-hash_en [] d ds p = (refl, refl)
find_value-hash_en (x ∷ xs) d ds p = (
  elim (ℕ_discrete x 101) [
    | yes e ↦
        let same : (x == 101) ≡ true = ap (λ y. y == 101) e in
        rw (find_value, hex-ends x p.0, same) (find_value-hash_en xs d ds p.1).1
    | no ne ↦ rw (find_value, hex-ends x p.0, ==_ne x 101 ne) (find_value-hash_en xs d ds p.1).0
  ],
  behind xs (find_value-hash_en xs d ds p.1).0,
)
  where
    not_n : x ≢ 110
    not_n = ground (arith, p.0)

    behind :
        (ys : List ℕ)
        → let en : List ℕ = 101 ∷ 110 ∷ [] in
          find_value en en (ys ++ (38 ∷ d ∷ ds)) ≡ find_value en en (d ∷ ds)
          → find_value en (110 ∷ []) (x ∷ (ys ++ (38 ∷ d ∷ ds))) ≡ find_value en en (d ∷ ds)
    behind [] h = rw (find_value, hex-ends x p.0, ==_ne x 110 not_n) refl
    behind (y ∷ ys) h = rw (find_value, hex-ends x p.0, ==_ne x 110 not_n) h

-- One character in front of text that is not empty, for a name of one character.
pub find_value-skip :
    (k x c : ℕ) (xs rest : List ℕ)
    → ends_search x ≡ false
    → x ≢ k
    → find_value (k ∷ []) (k ∷ []) (x ∷ (xs ++ (c ∷ rest)))
      ≡ find_value (k ∷ []) (k ∷ []) (xs ++ (c ∷ rest))
unfolding find_value
find_value-skip k x c [] rest h ne = rw (find_value, h, ==_ne x k ne) refl
find_value-skip k x c (y ∷ ys) rest h ne = rw (find_value, h, ==_ne x k ne) refl
