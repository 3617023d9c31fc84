-- ===== src/Http/Find.antt =====
-- A name and its value in a request (`findKeyVal` of firmware/server.cpp).
use indigo_open_sprinkler_pl.Common.{
  ℕ, zero, suc, ◌-◌, ◌≡◌, ◌≢◌, refl, arith, false, List, [], ◌∷◌, ◌++◌, some, take, ==_refl,
}
use indigo_open_sprinkler_pl.Http.{ends_search, find_value, copy_value, find_key_val}

-- No character of the text ends the search for a name.
abbrev pub IsPlain : List ℕ → Type 0
IsPlain [] = Unit
IsPlain (x ∷ xs) = (ends_search x ≡ false) × IsPlain xs

-- No character of the text ends a value.
abbrev pub IsValue : List ℕ → Type 0
IsValue [] = Unit
IsValue (x ∷ xs) = (ends_search x ≡ false) × (x ≢ 38) × IsValue xs

find_value-rest :
    (key : List ℕ) (k : ℕ) (ks rest : List ℕ)
    → IsPlain (k ∷ ks)
    → find_value key (k ∷ ks) ((k ∷ ks) ++ (61 ∷ rest)) ≡ some rest
unfolding find_value
find_value-rest key k [] rest p = rw (find_value, p.0, ==_refl k)
find_value-rest key k (l ∷ ks) rest p =
    rw (find_value, p.0, ==_refl k) (find_value-rest key l ks rest p.1)

copy_value-take : (n : ℕ) (v rest : List ℕ) → IsValue v → copy_value n (v ++ (38 ∷ rest)) ≡ take n v
unfolding copy_value
copy_value-take zero v rest p = refl
copy_value-take (suc n) [] rest p = refl
copy_value-take (suc n) (x ∷ xs) rest p =
    rw (p.0, copy_value-take n xs rest p.2) (ground (arith, p.1))

-- In a request that starts with "name=value&", the value is found under the name, cut to the size of
-- the buffer less 1.
find_key_val_front :
    (maxlen k : ℕ) (ks v rest : List ℕ)
    → IsPlain (k ∷ ks)
    → IsValue v
    → find_key_val maxlen (k ∷ ks) ((k ∷ ks) ++ (61 ∷ (v ++ (38 ∷ rest))))
      ≡ some (take (maxlen - 1) v)
unfolding find_key_val find_value
find_key_val_front maxlen k ks v rest p q =
    rw (find_value-rest (k ∷ ks) k ks (v ++ (38 ∷ rest)) p, copy_value-take (maxlen - 1) v rest q)
