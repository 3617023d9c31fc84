-- ===== src/Json/Records.antt =====
-- Which records the page of the log shows (`write_log` of firmware/main.cpp, `server_json_log` of
-- firmware/server.cpp).
use mathlib.Core.List.{append_assoc}
use indigo_open_sprinkler_pl.Common.{
  ℕ, zero, suc, ◌+◌, ◌/◌, ◌%◌, ◌≤◌, ◌<◌, ◌≡◌, ◌≢◌, refl, sym, ◌∙◌, ap, arith, Bool, true, false,
  not, ◌||◌, ◌==◌, List, [], ◌∷◌, ◌++◌, Option, none, some, dec_lt, lt→ltb, ltb-false,
}
use indigo_open_sprinkler_pl.Http.{all_digits, head_or_nul, skip}
use indigo_open_sprinkler_pl.Controller.{
  LogStruct, LogData, LogRecord, log_station, log_rainsense, log_raindelay, log_waterlevel,
  log_flowsense, run_record, value_record,
}
use indigo_open_sprinkler_pl.Json.{codes, digits, ultoa}
use indigo_open_sprinkler_pl.Json.Numbers.{ultoa-all_digits}
use indigo_open_sprinkler_pl.Json.Log.{log_type_name, log_text, after_comma, same_start, is_printed}

after_comma-digits :
    (ds rest : List ℕ) → all_digits ds ≡ true → after_comma (ds ++ (44 ∷ rest)) ≡ some rest
unfolding after_comma all_digits
after_comma-digits [] rest a = refl
after_comma-digits (d ∷ ds) rest a = ground (arith, after_comma-digits ds rest)

digits-cons :
    (f n : ℕ) (x : ℕ) (xs : List ℕ) → (y : ℕ) × (ys : List ℕ) × (digits f n (x ∷ xs) ≡ y ∷ ys)
unfolding digits
digits-cons zero n x xs = (x, xs, refl)
digits-cons (suc f) n x xs = elim (dec_lt n 10) [
  | yes p ↦ (48 + n, x ∷ xs, rw (digits, lt→ltb n 10 p))
  | no p ↦ rw (digits, ltb-false n 10 (omega arith)) (digits-cons f (n / 10) (48 + n % 10) (x ∷ xs))
]

ultoa-cons : (n : ℕ) → (y : ℕ) × (ys : List ℕ) × (ultoa n ≡ y ∷ ys)
unfolding ultoa digits
ultoa-cons n = elim (dec_lt n 10) [
  | yes p ↦ (48 + n, [], rw (ultoa, digits, lt→ltb n 10 p))
  | no p ↦
      rw (ultoa, digits, ltb-false n 10 (omega arith)) (digits-cons n (n / 10) (48 + n % 10) [])
]

-- Behind the first character of a number in front of a comma no letter stands.
second-lt :
    (y : ℕ) (ys rest : List ℕ)
    → all_digits (y ∷ ys) ≡ true
    → head_or_nul (skip ((y ∷ ys) ++ (44 ∷ rest))) < 58
unfolding all_digits
second-lt y [] rest a = omega arith
second-lt y (z ∷ zs) rest a = ground arith

same_start-letter :
    (n a : ℕ) (t b : List ℕ) → 58 ≤ a → head_or_nul b < 58 → same_start (suc n) (a ∷ t) b ≡ false
unfolding same_start
same_start-letter n a t b h k = ground arith

station-lt : (n : ℕ) (rest : List ℕ) → head_or_nul (skip (ultoa n ++ (44 ∷ rest))) < 58
station-lt n rest =
    let (y, ys, e) = ultoa-cons n in
    rw e (second-lt y ys rest (ap all_digits (sym e) ∙ ultoa-all_digits n))

-- The type of a record, and its number.
abbrev pub record_type : LogRecord → LogData
record_type (run_record day run t) = log_station
record_type (value_record day type count value t) = type

abbrev pub log_code : LogData → ℕ
log_code log_station = 0
log_code log_rainsense = 1
log_code log_raindelay = 2
log_code log_waterlevel = 3
log_code log_flowsense = 4

-- The records that are shown when a type, or none, is asked for.
abbrev pub shown : Option LogData → LogRecord → Bool
shown none r = not ((log_code (record_type r) == 3) || (log_code (record_type r) == 4))
shown (some t) r = log_code t == log_code (record_type r)

abbrev pub type_text : Option LogData → Option (List ℕ)
type_text none = none
type_text (some t) = some (log_type_name t)

-- The line of a run up to its second comma, and that of two values up to the type.
run-text :
    (day : ℕ) (run : LogStruct) (t : ℕ)
    → log_text (run_record day run t)
      ≡ 91
        ∷ (ultoa run.program
            ++ (44
                ∷ (ultoa run.station
                    ++ (44 ∷ (ultoa run.duration ++ (44 ∷ (ultoa t ++ codes "]\r\n")))))))
unfolding log_text
run-text day run t = simp (append_assoc)

value-text :
    (day : ℕ) (type : LogData) (count value t : ℕ)
    → log_text (value_record day type count value t)
      ≡ 91
        ∷ (ultoa count
            ++ (44
                ∷ 34
                ∷ (log_type_name type
                    ++ (34 ∷ 44 ∷ (ultoa value ++ (44 ∷ (ultoa t ++ codes "]\r\n")))))))
unfolding log_text
value-text day type count value t = simp (append_assoc)

comma_first : (n : ℕ) (rest : List ℕ) → after_comma (91 ∷ (ultoa n ++ (44 ∷ rest))) ≡ some rest
unfolding after_comma
comma_first n rest = after_comma-digits (ultoa n) rest (ultoa-all_digits n)

-- In the line of a run, the text that is compared with a type starts with a digit or a comma.
run-is_printed :
    (want : Option LogData) (day : ℕ) (run : LogStruct) (t : ℕ)
    → (want ≢ some log_station)
    → is_printed (type_text want) (log_text (run_record day run t))
      ≡ shown want (run_record day run t)
unfolding is_printed
run-is_printed want day run t ne =
    rw (is_printed, run-text day run t, comma_first run.program)
      (go want ne (ultoa run.station ++ (44 ∷ behind)) (station-lt run.station behind))
  where
    behind : List ℕ
    behind = ultoa run.duration ++ (44 ∷ (ultoa t ++ codes "]\r\n"))

    go :
        (w : Option LogData)
        → (w ≢ some log_station)
        → (xs : List ℕ) → head_or_nul (skip xs) < 58
        → (elim (type_text w) [
          | some s ↦ same_start 2 s (skip xs)
          | none ↦ not (same_start 2 (codes "wl") (skip xs) || same_start 2 (codes "fl") (skip xs))
        ])
          ≡ shown w (run_record day run t)
    go none nw xs h = rw (
      same_start-letter 1 119 (108 ∷ []) (skip xs) (omega arith) h,
      same_start-letter 1 102 (108 ∷ []) (skip xs) (omega arith) h,
    )
    go (some log_station) nw xs h = absurd (nw refl)
    go (some log_rainsense) nw xs h = same_start-letter 1 114 (115 ∷ []) (skip xs) (omega arith) h
    go (some log_raindelay) nw xs h = same_start-letter 1 114 (100 ∷ []) (skip xs) (omega arith) h
    go (some log_waterlevel) nw xs h = same_start-letter 1 119 (108 ∷ []) (skip xs) (omega arith) h
    go (some log_flowsense) nw xs h = same_start-letter 1 102 (108 ∷ []) (skip xs) (omega arith) h

value-is_printed :
    (want : Option LogData) (day : ℕ) (type : LogData) (count value t : ℕ)
    → want ≢ some log_station
    → is_printed (type_text want) (log_text (value_record day type count value t))
      ≡ shown want (value_record day type count value t)
unfolding is_printed same_start
value-is_printed want day type count value t ne =
    rw (is_printed, value-text day type count value t, comma_first count) (go want type ne _)
  where
    go :
        (w : Option LogData) (y : LogData)
        → w ≢ some log_station
        → (rest : List ℕ)
        → (elim (type_text w) [
          | some s ↦ same_start 2 s (log_type_name y ++ rest)
          | none ↦ not (
              same_start 2 (codes "wl") (log_type_name y ++ rest)
              || same_start 2 (codes "fl") (log_type_name y ++ rest))
        ])
          ≡ shown w (value_record day y count value t)
    go none log_station nw rest = refl
    go none log_rainsense nw rest = refl
    go none log_raindelay nw rest = refl
    go none log_waterlevel nw rest = refl
    go none log_flowsense nw rest = refl
    go (some log_station) y nw rest = absurd (nw refl)
    go (some log_rainsense) log_station nw rest = refl
    go (some log_rainsense) log_rainsense nw rest = refl
    go (some log_rainsense) log_raindelay nw rest = refl
    go (some log_rainsense) log_waterlevel nw rest = refl
    go (some log_rainsense) log_flowsense nw rest = refl
    go (some log_raindelay) log_station nw rest = refl
    go (some log_raindelay) log_rainsense nw rest = refl
    go (some log_raindelay) log_raindelay nw rest = refl
    go (some log_raindelay) log_waterlevel nw rest = refl
    go (some log_raindelay) log_flowsense nw rest = refl
    go (some log_waterlevel) log_station nw rest = refl
    go (some log_waterlevel) log_rainsense nw rest = refl
    go (some log_waterlevel) log_raindelay nw rest = refl
    go (some log_waterlevel) log_waterlevel nw rest = refl
    go (some log_waterlevel) log_flowsense nw rest = refl
    go (some log_flowsense) log_station nw rest = refl
    go (some log_flowsense) log_rainsense nw rest = refl
    go (some log_flowsense) log_raindelay nw rest = refl
    go (some log_flowsense) log_waterlevel nw rest = refl
    go (some log_flowsense) log_flowsense nw rest = refl

-- The page shows the line of a record exactly if its type is the one that is asked for (not that of
-- runs, which has no name), or, if none is asked for, if it is neither a water level nor a flow
-- count: the comparison of the text behind the first comma never takes the line of a run, whatever
-- its numbers are, for one of another type.
pub is_printed-log_text :
    (want : Option LogData) (r : LogRecord)
    → want ≢ some log_station
    → is_printed (type_text want) (log_text r) ≡ shown want r
is_printed-log_text want (run_record day run t) ne = run-is_printed want day run t ne
is_printed-log_text want (value_record day type count value t) ne =
    value-is_printed want day type count value t ne
