-- ===== src/Http/Sizes.antt =====
-- The buffers of a request (firmware/server.cpp): the copy of a value, and its decoding in place.
use indigo_open_sprinkler_pl.Common.{
  ℕ, zero, suc, ◌+◌, ◌-◌, ◌*◌, ◌≤◌, ◌≡◌, arith, Bool, true, false, ◌==◌, if◌then◌else◌, List, [],
  ◌∷◌, ◌++◌, ◌∙◌, ◌≢◌, refl, sym, ==_ne, Bool-cases, ℕ_discrete, inl, inr, ap, length, Option, none,
  some, subst,
}
use indigo_open_sprinkler_pl.Http.{copy_value, find_value, find_key_val, url_decode, h2int}

length-copy_value : (n : ℕ) (s : List ℕ) → length (copy_value n s) ≤ n
unfolding copy_value
length-copy_value zero s = omega arith
length-copy_value (suc n) [] = omega arith
length-copy_value (suc n) (c ∷ cs) = ground (arith, length-copy_value n cs)

length-url_decode : (s : List ℕ) → length (url_decode s) ≤ length s
unfolding url_decode
length-url_decode [] = omega arith
length-url_decode (c ∷ []) = ground arith
length-url_decode (c ∷ d ∷ []) = ends (c == 0) (c == 37) (length-url_decode (d ∷ []))
  where
    ends :
        (x y : Bool)
        → length (url_decode (d ∷ [])) ≤ 1
        → length (
            if x
            then []
            else if y
            then (h2int d * 16) ∷ []
            else (if c == 43 then 32 else c) ∷ url_decode (d ∷ []))
          ≤ 2
    ends true y h = omega arith
    ends false true h = omega arith
    ends false false h = omega (arith, h)
length-url_decode (c ∷ d ∷ e ∷ rest) =
    go (c == 0) (c == 37) (length-url_decode rest) (length-url_decode (d ∷ e ∷ rest))
  where
    go :
        (x y : Bool)
        → length (url_decode rest) ≤ length rest
        → length (url_decode (d ∷ e ∷ rest)) ≤ suc (suc (length rest))
        → length (elim x [
          | true ↦ []
          | false ↦ elim y [
            | true ↦ (h2int d * 16 + h2int e) ∷ url_decode rest
            | false ↦ (if c == 43 then 32 else c) ∷ url_decode (d ∷ e ∷ rest)
          ]
        ])
          ≤ suc (suc (suc (length rest)))
    go true y h k = omega arith
    go false true h k = omega (arith, h)
    go false false h k = omega (arith, k)

some-length :
    (n : ℕ) (r : Option (List ℕ)) (v : List ℕ)
    → (elim r [ none ↦ none | some rest ↦ some (copy_value n rest) ]) ≡ some v
    → length v ≤ n
some-length n none v h = absurd (clash h)
  where
    clash : none ≡ some v → ⊥
    clash e = cc
some-length n (some rest) v h =
    let same : copy_value n rest ≡ v = cc in
    subst (λ x. length x ≤ n) same (length-copy_value n rest)

-- Every '%' has two characters behind it.
abbrev pub IsEscaped : List ℕ → Type 0
IsEscaped [] = Unit
IsEscaped (c ∷ []) = c ≢ 37
IsEscaped (c ∷ d ∷ []) = (c ≢ 37) × (d ≢ 37)
IsEscaped (c ∷ d ∷ e ∷ rest) = (c ≡ 37 → IsEscaped rest) × (c ≢ 37 → IsEscaped (d ∷ e ∷ rest))

at_nul : (c : ℕ) (xs : List ℕ) → (c == 0) ≡ true → url_decode (c ∷ xs) ≡ []
unfolding url_decode
at_nul c [] e = rw (url_decode, e) refl
at_nul c (d ∷ []) e = rw (url_decode, e) refl
at_nul c (d ∷ e' ∷ xs) e = rw (url_decode, e) refl

plain :
    (c : ℕ) (xs : List ℕ)
    → (c == 0) ≡ false
    → c ≢ 37
    → url_decode (c ∷ xs) ≡ (if c == 43 then 32 else c) ∷ url_decode xs
unfolding url_decode
plain c [] e ne = rw (url_decode, e, ==_ne c 37 ne) refl
plain c (d ∷ []) e ne = rw (url_decode, e, ==_ne c 37 ne) refl
plain c (d ∷ e' ∷ xs) e ne = rw (url_decode, e, ==_ne c 37 ne) refl

-- The text behind a character is decoded the same, with other bytes behind it or without.
behind :
    (c : ℕ) (xs ys : List ℕ)
    → c ≢ 37
    → url_decode xs ≡ url_decode ys
    → url_decode (c ∷ xs) ≡ url_decode (c ∷ ys)
behind c xs ys ne same = elim (Bool-cases (c == 0)) [
  | inl e ↦ at_nul c xs e ∙ sym (at_nul c ys e)
  | inr e ↦ plain c xs e ne ∙ ap (λ r. (if c == 43 then 32 else c) ∷ r) same ∙ sym (plain c ys e ne)
]

escape :
    (c d e : ℕ) (xs ys : List ℕ)
    → c ≡ 37
    → url_decode xs ≡ url_decode ys
    → url_decode (c ∷ d ∷ e ∷ xs) ≡ url_decode (c ∷ d ∷ e ∷ ys)
unfolding url_decode
escape c d e xs ys percent same =
    let digits = ap (λ r. (h2int d * 16 + h2int e) ∷ r) same in
    subst (λ x. url_decode (x ∷ d ∷ e ∷ xs) ≡ url_decode (x ∷ d ∷ e ∷ ys)) (sym percent) digits

-- The decoding then ends at the NUL.
pub url_decode-IsEscaped :
    (v rest : List ℕ) → IsEscaped v → url_decode (v ++ (0 ∷ rest)) ≡ url_decode v
unfolding url_decode
url_decode-IsEscaped [] rest h = at_nul 0 rest refl
url_decode-IsEscaped (c ∷ []) rest h = behind c (0 ∷ rest) [] h (at_nul 0 rest refl)
url_decode-IsEscaped (c ∷ d ∷ []) rest h =
    behind c (d ∷ 0 ∷ rest) (d ∷ []) h.0 (behind d (0 ∷ rest) [] h.1 (at_nul 0 rest refl))
url_decode-IsEscaped (c ∷ d ∷ e ∷ v) rest h = elim (ℕ_discrete c 37) [
  | yes percent ↦
      escape c d e (v ++ (0 ∷ rest)) v percent (url_decode-IsEscaped v rest (h.0 percent))
  | no ne ↦
      behind c (d ∷ e ∷ v ++ (0 ∷ rest)) (d ∷ e ∷ v) ne
        (url_decode-IsEscaped (d ∷ e ∷ v) rest (h.1 ne))
]

-- The value that `findKeyVal` copies leaves room for the NUL in a buffer of the given size. If every
-- '%' of it has two characters behind it, decoding it in place gives the same whatever lies behind
-- the NUL, and writes no more bytes than the value has.
pub find_key_val-fits :
    (maxlen : ℕ) (key str v : List ℕ)
    → find_key_val maxlen key str ≡ some v
    → (length v ≤ maxlen - 1)
      × (IsEscaped v
          → (rest : List ℕ)
          → (url_decode (v ++ (0 ∷ rest)) ≡ url_decode v)
            × (length (url_decode (v ++ (0 ∷ rest))) ≤ length v))
unfolding find_key_val
find_key_val-fits maxlen key str v h = (
  some-length (maxlen - 1) (find_value key key str) v h,
  λ escaped rest.
      let same = url_decode-IsEscaped v rest escaped in
      (same, subst (λ d. length d ≤ length v) (sym same) (length-url_decode v)),
)
