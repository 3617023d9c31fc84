-- ===== src/Json/LogRange.antt =====
-- The days that a request for the log reads (`server_json_log` of firmware/server.cpp).
use indigo_open_sprinkler_pl.Common.{
  ℕ, ◌+◌, ◌-◌, ◌/◌, ◌%◌, ◌≤◌, ◌<◌, ◌≡◌, refl, ◌∙◌, ap, sym, subst, arith, Bool, true, false, ◌||◌,
  if◌then◌else◌, ltb, leb, ◌⊎◌, inl, inr, zero, suc, ℕ_discrete, List, [], Option, none, some,
  dec_lt, lt→ltb, ltb-false,
}
use indigo_open_sprinkler_pl.Common.Int.{ℤ, pos, negsuc}
use indigo_open_sprinkler_pl.WaterTime.{ulong_mod}
use indigo_open_sprinkler_pl.Program.{secs_per_day}
use indigo_open_sprinkler_pl.Controller.{Controller, LogRecord, now_tz}
use indigo_open_sprinkler_pl.Server.{
  Result, html_ok, html_data_missing, html_data_out_of_bound, int_of,
}
use indigo_open_sprinkler_pl.Json.Log.{
  day_number, log_answer, day_loop, print_lines, day_lines, print_days, wanted_type, log_range,
  key_hist, key_start, key_end, server_json_log,
}

now_tz-lt : (c : Controller) → now_tz c < ulong_mod
unfolding now_tz
now_tz-lt c = omega arith

history-days :
    (today hist : ℕ)
    → today < 50000
    → hist ≤ 365
    → today + 1 - (today + ulong_mod - hist) % ulong_mod ≤ 366
history-days today hist h k = omega arith

-- The days that a request gives by its first and last one.
given : Option ℤ → Option ℤ → Result × ℕ × ℕ
given none e = (html_data_missing, 0, 0)
given (some s) none = (html_data_missing, 0, 0)
given (some s) (some e) =
    if ltb (day_number e) (day_number s) || ltb 365 (day_number e - day_number s)
    then (html_data_out_of_bound, 0, 0)
    else (html_ok, day_number s, day_number e)

given-days : (s e : Option ℤ) → (given s e).2 + 1 - (given s e).1 ≤ 366
unfolding given
given-days none e = omega arith
given-days (some s) none = omega arith
given-days (some s) (some e) = bound (day_number s) (day_number e)
  where
    bound :
        (x y : ℕ)
        → let r : Result × ℕ × ℕ =
            if ltb y x || ltb 365 (y - x)
            then (html_data_out_of_bound, 0, 0)
            else (html_ok, x, y) in
          r.2 + 1 - r.1 ≤ 366
    bound x y = ground arith

-- The range by the three numbers of the request.
ranged : ℕ → Option ℤ → Option ℤ → Option ℤ → Result × ℕ × ℕ
ranged today none s e = given s e
ranged today (some (negsuc n)) s e = (html_data_out_of_bound, 0, 0)
ranged today (some (pos hist)) s e =
    if ltb 365 hist
    then (html_data_out_of_bound, 0, 0)
    else (html_ok, (today + ulong_mod - hist) % ulong_mod, today)

log_range-eq :
    (p : List ℕ) (c : Controller)
    → log_range p c
      ≡ ranged (now_tz c / secs_per_day) (int_of key_hist p) (int_of key_start p) (int_of key_end p)
unfolding log_range ranged given
log_range-eq p c = go (int_of key_hist p) (int_of key_start p) (int_of key_end p)
  where
    today : ℕ
    today = now_tz c / secs_per_day

    go :
        (o s e : Option ℤ)
        → (elim o [
          | some (negsuc n) ↦ (html_data_out_of_bound, 0, 0)
          | some (pos hist) ↦
              if ltb 365 hist
              then (html_data_out_of_bound, 0, 0)
              else (html_ok, (today + ulong_mod - hist) % ulong_mod, today)
          | none ↦ elim s [
            | none ↦ (html_data_missing, 0, 0)
            | some a ↦ elim e [
              | none ↦ (html_data_missing, 0, 0)
              | some b ↦
                  if ltb (day_number b) (day_number a) || ltb 365 (day_number b - day_number a)
                  then (html_data_out_of_bound, 0, 0)
                  else (html_ok, day_number a, day_number b)
            ]
          ]
        ])
          ≡ ranged today o s e
    go (some (negsuc n)) s e = refl
    go (some (pos hist)) s e = refl
    go none none e = refl
    go none (some a) none = refl
    go none (some a) (some b) = refl

ranged-days :
    (today : ℕ) (o s e : Option ℤ)
    → today < 50000
    → (ranged today o s e).2 + 1 - (ranged today o s e).1 ≤ 366
unfolding ranged
ranged-days today none s e h = given-days s e
ranged-days today (some (negsuc n)) s e h = omega arith
ranged-days today (some (pos hist)) s e h = elim (dec_lt 365 hist) [
  | yes far ↦ rw (lt→ltb 365 hist far) (omega arith)
  | no near ↦ rw (ltb-false 365 hist (omega arith)) (history-days today hist h (omega arith))
]

ranged-end : (today : ℕ) (o s e : Option ℤ) → today < 50000 → (ranged today o s e).2 < ulong_mod
unfolding ranged given
ranged-end today none none e h = omega arith
ranged-end today none (some a) none h = omega arith
ranged-end today none (some a) (some b) h = chosen _ (day_number-lt b)
  where
    day_number-lt : (z : ℤ) → day_number z < ulong_mod
    day_number-lt (pos n) = omega arith
    day_number-lt (negsuc n) = omega arith

    chosen :
        (x : Bool)
        → day_number b < ulong_mod
        → let r : Result × ℕ × ℕ =
            if x then (html_data_out_of_bound, 0, 0) else (html_ok, day_number a, day_number b) in
          r.2 < ulong_mod
    chosen true q = omega arith
    chosen false q = q
ranged-end today (some (negsuc n)) s e h = omega arith
ranged-end today (some (pos hist)) s e h = ground arith

today-lt : (c : Controller) → now_tz c / secs_per_day < 50000
today-lt c = omega (arith, now_tz-lt c)

-- The loop in n rounds and one more that finds its end, with enough fuel.
day_loop_done :
    (n fuel : ℕ) (type : Option (List ℕ)) (log : List LogRecord) (i end : ℕ) (comma : Bool)
    → n < fuel
    → end + 1 - i ≡ n
    → end + 1 < ulong_mod
    → day_loop fuel type log i end comma ≡ some (print_days type log i n comma)
unfolding day_loop print_days
day_loop_done n zero type log i end comma h e k = absurd (omega arith)
day_loop_done zero (suc fuel) type log i end comma h e k =
    let past : leb i end ≡ false = ground arith in rw (day_loop, past) refl
day_loop_done (suc n) (suc fuel) type log i end comma h e k =
    let here : leb i end ≡ true = ground arith in
    let next : (i + 1) % ulong_mod ≡ suc i = omega arith in
    let after = (print_lines type (day_lines i log []) comma).1 in
    let ih = day_loop_done n fuel type log (suc i) end after (omega arith) (omega arith) k in
    rw (day_loop, here, next, ih) refl

-- With the largest number as its end the loop needs more rounds than any fuel.
day_loop_endless :
    (fuel : ℕ) (type : Option (List ℕ)) (log : List LogRecord) (i : ℕ) (comma : Bool)
    → i < ulong_mod
    → day_loop fuel type log i (ulong_mod - 1) comma ≡ none
unfolding day_loop
day_loop_endless zero type log i comma h = refl
day_loop_endless (suc fuel) type log i comma h =
    let here : leb i (ulong_mod - 1) ≡ true = ground arith in
    let after = (print_lines type (day_lines i log []) comma).1 in
    let ih = day_loop_endless fuel type log ((i + 1) % ulong_mod) after (omega arith) in
    rw (day_loop, here, ih) refl

ranged-start : (today : ℕ) (o s e : Option ℤ) → today < 50000 → (ranged today o s e).1 < ulong_mod
unfolding ranged given
ranged-start today none none e h = omega arith
ranged-start today none (some a) none h = omega arith
ranged-start today none (some a) (some b) h = chosen _ (day_number-lt a)
  where
    day_number-lt : (z : ℤ) → day_number z < ulong_mod
    day_number-lt (pos n) = omega arith
    day_number-lt (negsuc n) = omega arith

    chosen :
        (x : Bool)
        → day_number a < ulong_mod
        → let r : Result × ℕ × ℕ =
            if x then (html_data_out_of_bound, 0, 0) else (html_ok, day_number a, day_number b) in
          r.1 < ulong_mod
    chosen true q = omega arith
    chosen false q = q
ranged-start today (some (negsuc n)) s e h = omega arith
ranged-start today (some (pos hist)) s e h = ground arith

-- The range is accepted, or the days do not matter.
Result_cases :
    (a : Result) → (a ≡ html_ok) ⊎ ((r r' : Option (List ℕ)) → log_answer a r ≡ log_answer a r')
unfolding log_answer
Result_cases html_ok = inl refl
Result_cases other = inr (λ r r'. refl)

-- Every request for the log is of one of two kinds. Either 367 rounds of the loop over the days are
-- enough (366 days and one round that finds the end): whatever more is allowed, the answer is the
-- error, or the text for the days from the first to the last one. Or the range is accepted with
-- 2^32 - 1 as its last day, and no number of rounds is enough: the loop does not end.
pub server_json_log_ends :
    (p : List ℕ) (c : Controller)
    → let (answer, first, last) = log_range p c in
      ((fuel : ℕ)
        → 366 < fuel
        → server_json_log fuel p c
          ≡ log_answer answer
              (some (print_days (wanted_type p) c.log first (last + 1 - first) false)))
      ⊎ ((answer ≡ html_ok) × (last ≡ 4294967295) × ((fuel : ℕ) → server_json_log fuel p c ≡ none))
unfolding server_json_log log_answer
server_json_log_ends p c = elim (ℕ_discrete last 4294967295) [
  | no ne ↦ inl (λ fuel lt. ap (log_answer answer) (
      day_loop_done (last + 1 - first) fuel (wanted_type p) c.log first last false
        (omega (arith, few, lt)) refl (omega (arith, ne, high))))
  | yes max ↦ full max (Result_cases answer)
]
  where
    today : ℕ
    today = now_tz c / secs_per_day

    o : Option ℤ
    o = int_of key_hist p

    s : Option ℤ
    s = int_of key_start p

    e : Option ℤ
    e = int_of key_end p

    answer : Result
    answer = (log_range p c).0

    first : ℕ
    first = (log_range p c).1

    last : ℕ
    last = (log_range p c).2

    low : first < ulong_mod
    low =
        subst (λ r. r.1 < ulong_mod) (sym (log_range-eq p c))
          (ranged-start today o s e (today-lt c))

    high : last < ulong_mod
    high =
        subst (λ r. r.2 < ulong_mod) (sym (log_range-eq p c)) (ranged-end today o s e (today-lt c))

    few : last + 1 - first ≤ 366
    few =
        subst (λ r. r.2 + 1 - r.1 ≤ 366) (sym (log_range-eq p c))
          (ranged-days today o s e (today-lt c))

    loop : ℕ → Option (List ℕ)
    loop fuel = day_loop fuel (wanted_type p) c.log first last false

    endless : last ≡ 4294967295 → (fuel : ℕ) → loop fuel ≡ none
    endless max fuel =
        ap (λ l. day_loop fuel (wanted_type p) c.log first l false) max
        ∙ day_loop_endless fuel (wanted_type p) c.log first false low

    full :
        last ≡ 4294967295
        → (answer ≡ html_ok)
          ⊎ ((r r' : Option (List ℕ)) → log_answer answer r ≡ log_answer answer r')
        → ((fuel : ℕ)
            → 366 < fuel
            → log_answer answer (loop fuel)
              ≡ log_answer answer
                  (some (print_days (wanted_type p) c.log first (last + 1 - first) false)))
          ⊎ ((answer ≡ html_ok)
              × (last ≡ 4294967295)
              × ((fuel : ℕ) → log_answer answer (loop fuel) ≡ none))
    full max (inl ok) = inr (
      ok,
      max,
      λ fuel. ap (λ a. log_answer a (loop fuel)) ok ∙ ap (log_answer html_ok) (endless max fuel),
    )
    full max (inr same) = inl (λ fuel lt. same _ _)
