-- ===== src/Server/Password.antt =====
-- The change of the password (`/sp`), and the check that follows it.
use indigo_open_sprinkler_pl.Common.{
  ℕ, zero, suc, ◌-◌, ◌≡◌, ◌≢◌, ◌⊎◌, inl, inr, refl, arith, true, ◌==◌, if◌then◌else◌, List, [], ◌∷◌,
  ◌++◌, none, some, Option-cases, Bool-cases, take, length-take,
}
use indigo_open_sprinkler_pl.Http.{
  find_nonempty, url_decode, decoded, text_of, password_verify, max_user_password,
}
use indigo_open_sprinkler_pl.Http.Laws.{HasNoNul, password_verify_iff}
use indigo_open_sprinkler_pl.Controller.{Controller}
use indigo_open_sprinkler_pl.Server.{html_success, html_mismatch, html_data_missing}
use indigo_open_sprinkler_pl.Server.Options.{
  server_change_password, key_npw, key_cpw, cut, same_text,
}

text_of-HasNoNul : (s : List ℕ) → HasNoNul (text_of s)
unfolding text_of
text_of-HasNoNul [] = tt
text_of-HasNoNul (x ∷ xs) = elim (Bool-cases (x == 0)) [
  | inl e ↦ rw (text_of, e) tt
  | inr e ↦ rw (text_of, e) ((λ z. ground arith), text_of-HasNoNul xs)
]

take-HasNoNul : (n : ℕ) (s : List ℕ) → HasNoNul s → HasNoNul (take n s)
take-HasNoNul zero s h = tt
take-HasNoNul (suc n) [] h = tt
take-HasNoNul (suc n) (x ∷ xs) h = (h.0, take-HasNoNul n xs h.1)

-- What the handler does with the two values.
module _ (p : List ℕ) (c : Controller) where
  missing : find_nonempty key_npw p ≡ none → server_change_password p c ≡ (c, html_data_missing)
  unfolding server_change_password
  missing e = rw (server_change_password, e)

  unconfirmed :
      (v : List ℕ)
      → find_nonempty key_npw p ≡ some v
      → find_nonempty key_cpw p ≡ none
      → server_change_password p c ≡ (c, html_mismatch)
  unfolding server_change_password
  unconfirmed v e f = rw (server_change_password, e, f)

  compared :
      (v w : List ℕ)
      → find_nonempty key_npw p ≡ some v
      → find_nonempty key_cpw p ≡ some w
      → server_change_password p c ≡ (
          if same_text (take max_user_password v) (take max_user_password w)
          then (
            record c {
              texts = record (c.texts) {
                password = cut (max_user_password - 1) v (c.buffer_rest key_npw);
              };
            },
            html_success,
          )
          else (c, html_mismatch))
  unfolding server_change_password
  compared v w e f = rw (server_change_password, e, f)

accepts :
    (v rest pw : List ℕ)
    → let stored = cut (max_user_password - 1) v rest in
      ((password_verify stored pw ≡ true) → stored ≡ text_of pw)
      × (stored ≡ text_of pw → password_verify stored pw ≡ true)
accepts v rest pw =
    password_verify_iff (cut (max_user_password - 1) v rest) pw
      (take-HasNoNul (max_user_password - 1) (decoded v rest)
        (text_of-HasNoNul (url_decode (v ++ (0 ∷ rest)))))
      (omega (arith, length-take (max_user_password - 1) (decoded v rest)))

-- The texts are the same only if they are equal.
same_text-eq : (xs ys : List ℕ) → same_text xs ys ≡ true → xs ≡ ys
same_text-eq [] [] h = refl
same_text-eq [] (y ∷ ys) h = absurd (ground (arith, h))
same_text-eq (x ∷ xs) [] h = absurd (ground (arith, h))
same_text-eq (x ∷ xs) (y ∷ ys) h =
    let head : x ≡ y = ground (arith, h) in
    let tail : xs ≡ ys = same_text-eq xs ys (ground (arith, h)) in rw (head, tail) refl

-- A request to change the password either is refused, and then nothing changes, or it gives the new
-- password twice, with the same first 36 characters; this, decoded (with `rest` behind it in the
-- buffer) and cut to 35 characters, is from then on accepted, and nothing else.
pub server_change_password_lem :
    (p : List ℕ) (c : Controller)
    → let rest = c.buffer_rest key_npw in
      (((server_change_password p c).1 ≢ html_success) × ((server_change_password p c).0 ≡ c))
      ⊎ (((server_change_password p c).1 ≡ html_success)
          × ((v : List ℕ) × (w : List ℕ) × (find_nonempty key_npw p ≡ some v)
              × (find_nonempty key_cpw p ≡ some w)
              × (take 36 v ≡ take 36 w)
              × ((pw : List ℕ)
                  → let stored = (server_change_password p c).0.texts.password in
                    (password_verify stored pw ≡ true → take 35 (decoded v rest) ≡ text_of pw)
                    × (take 35 (decoded v rest) ≡ text_of pw → password_verify stored pw ≡ true))))
server_change_password_lem p c = elim (Option-cases (find_nonempty key_npw p)) [
  | inl e ↦ rw (missing p c e) (inl ((λ x. cc), refl))
  | inr (v, e) ↦ elim (Option-cases (find_nonempty key_cpw p)) [
    | inl f ↦ rw (unconfirmed p c v e f) (inl ((λ x. cc), refl))
    | inr (w, f) ↦
        elim (Bool-cases (same_text (take max_user_password v) (take max_user_password w))) [
          | inl same ↦
              rw (compared p c v w e f, same)
                (inr (
                  refl,
                  (
                    v,
                    w,
                    e,
                    f,
                    same_text-eq (take max_user_password v) (take max_user_password w) same,
                    accepts v (c.buffer_rest key_npw),
                  ),
                ))
          | inr differ ↦ rw (compared p c v w e f, differ) (inl ((λ x. cc), refl))
        ]
  ]
]
