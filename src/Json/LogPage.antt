-- ===== src/Json/LogPage.antt =====
-- The page of the log as a list of records (`server_json_log` of firmware/server.cpp).
use mathlib.Core.List.{append_assoc, append-nil}
use indigo_open_sprinkler_pl.Common.{
  ℕ, zero, suc, ◌≡◌, ◌≢◌, inl, inr, refl, sym, ◌∙◌, ap, Bool, true, false, ◌&&◌, ◌||◌,
  if◌then◌else◌, ◌==◌, List, [], ◌∷◌, ◌++◌, map, Option, some, Bool-cases,
}
use indigo_open_sprinkler_pl.Controller.{LogData, LogRecord, log_station}
use indigo_open_sprinkler_pl.Json.Log.{
  log_text, is_printed, record_day, day_lines, print_lines, print_days,
}
use indigo_open_sprinkler_pl.Json.Records.{shown, type_text, is_printed-log_text}
use indigo_open_sprinkler_pl.Json.Joined.{join}

-- Texts with commas between them, and one in front of the first if `comma` says so.
abbrev lead : Bool → List (List ℕ) → List ℕ
lead comma [] = []
lead comma (x ∷ xs) = (if comma then 44 ∷ [] else []) ++ x ++ lead true xs

abbrev is_cons : List (List ℕ) → Bool
is_cons [] = false
is_cons (x ∷ xs) = true

lead-append :
    (xs ys : List (List ℕ)) (comma : Bool)
    → lead comma (xs ++ ys) ≡ lead comma xs ++ lead (comma || is_cons xs) ys
lead-append [] ys true = refl
lead-append [] ys false = refl
lead-append (x ∷ xs) ys true =
    rw (lead-append xs ys true) (sym (append_assoc (44 ∷ x) (lead true xs) (lead true ys)))
lead-append (x ∷ xs) ys false =
    rw (lead-append xs ys true) (sym (append_assoc x (lead true xs) (lead true ys)))

lead-true : (x : List ℕ) (xs : List (List ℕ)) → lead true (x ∷ xs) ≡ 44 ∷ join (x ∷ xs)
lead-true x [] = ap (λ s. 44 ∷ s) (append-nil x)
lead-true x (y ∷ ys) = rw (lead-true y ys)

lead-join : (xs : List (List ℕ)) → lead false xs ≡ join xs
lead-join [] = refl
lead-join (x ∷ []) = append-nil x
lead-join (x ∷ y ∷ ys) = rw (lead-true y ys)

-- The lines that are shown.
abbrev wanted : Option (List ℕ) → List (List ℕ) → List (List ℕ)
wanted type [] = []
wanted type (line ∷ lines) =
    let more = wanted type lines in if is_printed type line then line ∷ more else more

print_lines-eq :
    (type : Option (List ℕ)) (lines : List (List ℕ)) (comma : Bool)
    → ((print_lines type lines comma).0 ≡ lead comma (wanted type lines))
      × ((print_lines type lines comma).1 ≡ (comma || is_cons (wanted type lines)))
unfolding print_lines
print_lines-eq type [] true = (refl, refl)
print_lines-eq type [] false = (refl, refl)
print_lines-eq type (line ∷ lines) comma = elim (Bool-cases (is_printed type line)) [
  | inl x ↦
      let r = print_lines-eq type lines true in
      rw (print_lines, x)
        (split comma (print_lines type lines true).0 (lead true (wanted type lines))
          (print_lines type lines true).1 r.0 r.1)
  | inr x ↦ rw (print_lines, x) (print_lines-eq type lines comma)
]
  where
    split :
        (b : Bool) (printed tail : List ℕ) (after : Bool)
        → printed ≡ tail
        → after ≡ true
        → ((if b then 44 ∷ [] else []) ++ line ++ printed
            ≡ (if b then 44 ∷ [] else []) ++ line ++ tail)
          × (after ≡ (b || true))
    split true printed tail after e f = (rw e, f)
    split false printed tail after e f = (rw e, f)

-- The records of a day that are shown, the oldest first.
abbrev pub picked : Option LogData → ℕ → List LogRecord → List LogRecord
picked want day [] = []
picked want day (r ∷ rs) =
    picked want day rs ++ (if (record_day r == day) && shown want r then r ∷ [] else [])

-- The records of n days from `day` on.
abbrev pub selected : Option LogData → List LogRecord → ℕ → ℕ → List LogRecord
selected want log day zero = []
selected want log day (suc n) = picked want day log ++ selected want log (suc day) n

-- The texts of the records.
abbrev texts : List LogRecord → List (List ℕ)
texts rs = map log_text rs

texts-append : (xs ys : List LogRecord) → texts (xs ++ ys) ≡ texts xs ++ texts ys
texts-append [] ys = refl
texts-append (x ∷ xs) ys = ap (λ zs. log_text x ∷ zs) (texts-append xs ys)

module _ (want : Option LogData) (ne : want ≢ some log_station) where
  wanted-day_lines :
      (day : ℕ) (log : List LogRecord) (rest : List (List ℕ))
      → wanted (type_text want) (day_lines day log rest)
        ≡ texts (picked want day log) ++ wanted (type_text want) rest
  unfolding day_lines
  wanted-day_lines day [] rest = refl
  wanted-day_lines day (r ∷ rs) rest = elim (Bool-cases (record_day r == day)) [
    | inr other ↦
        rw (day_lines, other, append-nil (picked want day rs)) (wanted-day_lines day rs rest)
    | inl same ↦ elim (Bool-cases (shown want r)) [
      | inr not_shown ↦
          rw (day_lines, same, not_shown, append-nil (picked want day rs))
            (wanted-day_lines day rs (log_text r ∷ rest)
              ∙ ap (λ zs. texts (picked want day rs) ++ zs)
                  (hidden r rest (is_printed-log_text want r ne ∙ not_shown)))
      | inl is_shown ↦
          rw
            (
              day_lines,
              same,
              is_shown,
              texts-append (picked want day rs) (r ∷ []),
              append_assoc (texts (picked want day rs)) (log_text r ∷ [])
                  (wanted (type_text want) rest),
            )
            (wanted-day_lines day rs (log_text r ∷ rest)
              ∙ ap (λ zs. texts (picked want day rs) ++ zs)
                  (visible r rest (is_printed-log_text want r ne ∙ is_shown)))
    ]
  ]
    where
      hidden :
          (r : LogRecord) (rest : List (List ℕ))
          → is_printed (type_text want) (log_text r) ≡ false
          → wanted (type_text want) (log_text r ∷ rest) ≡ wanted (type_text want) rest
      hidden r rest e = rw e

      visible :
          (r : LogRecord) (rest : List (List ℕ))
          → is_printed (type_text want) (log_text r) ≡ true
          → wanted (type_text want) (log_text r ∷ rest) ≡ log_text r ∷ wanted (type_text want) rest
      visible r rest e = rw e

  day_lines-texts :
      (day : ℕ) (log : List LogRecord)
      → wanted (type_text want) (day_lines day log []) ≡ texts (picked want day log)
  day_lines-texts day log = wanted-day_lines day log [] ∙ append-nil (texts (picked want day log))

  print_days-lead :
      (log : List LogRecord) (day n : ℕ) (comma : Bool)
      → print_days (type_text want) log day n comma ≡ lead comma (texts (selected want log day n))
  unfolding print_days
  print_days-lead log day zero comma = refl
  print_days-lead log day (suc n) comma =
      let r = print_lines-eq (type_text want) (day_lines day log []) comma in
      let e = day_lines-texts day log in
      rw
        (
          print_days,
          r.0,
          r.1,
          e,
          print_days-lead log (suc day) n (comma || is_cons (texts (picked want day log))),
          texts-append (picked want day log) (selected want log (suc day) n),
        )
        (sym
          (lead-append (texts (picked want day log)) (texts (selected want log (suc day) n)) comma))

  -- The text that is printed for some days of the log, when no type or that of two values is asked
  -- for: the lines, as `write_log` wrote them, of exactly the records of those days that have the
  -- type, or with no type of all but water levels and flow counts, day by day and the oldest of a day
  -- first, with a comma between each two of them.
  pub print_days-join :
      (log : List LogRecord) (day n : ℕ)
      → print_days (type_text want) log day n false ≡ join (map log_text (selected want log day n))
  print_days-join log day n =
      print_days-lead log day n false ∙ lead-join (texts (selected want log day n))
