-- ===== src/MainLoop/Starting.antt =====
-- The queue when programs start (`do_loop` of firmware/main.cpp).
use indigo_open_sprinkler_pl.Common.{
  ℕ, zero, suc, ◌+◌, ◌≡◌, inl, inr, refl, sym, ◌∙◌, ap, subst, arith, Bool, true, false, ◌||◌, ◌==◌,
  if◌then◌else◌, Option, none, some, Option-cases, Bool-cases, replay,
}
use indigo_open_sprinkler_pl.Common.Int.{ℤ, pos}
use indigo_open_sprinkler_pl.Runtime.{enqueue}
use indigo_open_sprinkler_pl.Runtime.Links.{IsConsistent, enqueue-IsConsistent}
use indigo_open_sprinkler_pl.Program.{ProgramStruct, Tm, check_match}
use indigo_open_sprinkler_pl.Controller.{Controller, push_message, program_sched, MessageType}
use indigo_open_sprinkler_pl.Controller.OptionIndex.{option_water_percentage}
use indigo_open_sprinkler_pl.Scheduler.{add_element, schedule_all_stations, is_master, disabled}
use indigo_open_sprinkler_pl.Scheduler.Starts.{schedule_keeps}
use indigo_open_sprinkler_pl.MainLoop.{
  program_station, program_water_time, check_program, check_programs, schedule_programs,
}

add_element-IsConsistent :
    (sid pid dur : ℕ) (c : Controller)
    → IsConsistent c.runtime
    → IsConsistent (add_element sid pid dur c).0.runtime
unfolding add_element
add_element-IsConsistent sid pid dur c h = elim (Option-cases (enqueue c.runtime)) [
  | inl e ↦ rw (add_element, e) h
  | inr ((i, r), e) ↦ rw (add_element, e) (enqueue-IsConsistent c.runtime r i _ h e)
]

some_inj : {a b : Controller × Bool} → some a ≡ some b → a ≡ b
some_inj e = cc

program_station-IsConsistent :
    (pid : ℕ) (prog : ProgramStruct) (sid : ℕ) (s : Controller × Bool)
    → IsConsistent s.0.runtime
    → IsConsistent (program_station pid prog sid s).0.runtime
unfolding program_station
program_station-IsConsistent pid prog sid s h =
    cases (is_master s.0 sid) ((prog.durations sid == 0) || disabled s.0 sid)
      (program_water_time prog sid s.0 == 0)
  where
    added : Controller × Bool
    added = add_element sid (pid + 1) (program_water_time prog sid s.0) s.0

    cases :
        (a b d : Bool)
        → let out : Controller × Bool =
            if a
            then (s.0, s.1)
            else if b
            then (s.0, s.1)
            else if d
            then (s.0, s.1)
            else (added.0, s.1 || added.1) in
          IsConsistent out.0.runtime
    cases true b d = h
    cases false true d = h
    cases false false true = h
    cases false false false = add_element-IsConsistent sid (pid + 1) _ s.0 h

stations-IsConsistent :
    (pid : ℕ) (prog : ProgramStruct) (n : ℕ) (s : Controller × Bool)
    → IsConsistent s.0.runtime
    → IsConsistent (replay n (program_station pid prog) s).0.runtime
stations-IsConsistent pid prog zero s h = h
stations-IsConsistent pid prog (suc n) s h =
    program_station-IsConsistent pid prog n (replay n (program_station pid prog) s)
      (stations-IsConsistent pid prog n s h)

push_message-runtime :
    (type : MessageType) (l : ℕ) (f : ℤ) (c : Controller)
    → (push_message type l f c).runtime ≡ c.runtime
unfolding push_message
push_message-runtime type l f c = ground arith

schedule-IsConsistent :
    (t : ℕ) (c : Controller)
    → IsConsistent c.runtime
    → IsConsistent (schedule_all_stations t c).runtime
schedule-IsConsistent t c h = record {
  bounded = rw (schedule_keeps t c 0).4 h.bounded;
  links = λ s lt.
      let k = schedule_keeps t c in
      ground (arith, h.links s lt, (k 0).4, ap (λ f. f s) (k 0).5, (k (c.runtime.station_qid s)).1);
}

check_program-IsConsistent :
    (gmtime : ℕ → Tm) (t pid : ℕ) (s r : Controller × Bool)
    → IsConsistent s.0.runtime
    → check_program gmtime t pid s ≡ some r
    → IsConsistent r.0.runtime
unfolding check_program
check_program-IsConsistent gmtime t pid s r h e =
    cases (check_match gmtime s.0.nvdata.sunrise_time s.0.nvdata.sunset_time (s.0.programs pid) t)
      refl
  where
    started : Controller × Bool
    started = replay s.0.nstations (program_station pid (s.0.programs pid)) s

    after_start : IsConsistent started.0.runtime
    after_start = stations-IsConsistent pid (s.0.programs pid) s.0.nstations s h

    level : ℤ
    level =
        if (s.0.programs pid).use_weather
        then pos (started.0.options option_water_percentage)
        else pos 100

    told : Controller
    told = if started.1 then push_message program_sched pid level started.0 else started.0

    told-runtime : told.runtime ≡ started.0.runtime
    told-runtime = elim (Bool-cases started.1) [
      | inl x ↦ rw (told, x) (push_message-runtime program_sched pid level started.0)
      | inr x ↦ rw (told, x)
    ]

    result : (m : Option Bool) → Option (Controller × Bool)
    result none = none
    result (some false) = some s
    result (some true) = some (told, started.1)

    cases :
        (m : Option Bool)
        → check_match gmtime s.0.nvdata.sunrise_time s.0.nvdata.sunset_time (s.0.programs pid) t ≡ m
        → IsConsistent r.0.runtime
    cases none x = absurd (clash (sym (rw (check_program, x) refl) ∙ e))
      where
        clash : none ≡ some r → ⊥
        clash eq = cc
    cases (some false) x =
        let y : some s ≡ some r = sym (rw (check_program, x) refl) ∙ e in
        subst (λ d. IsConsistent d.0.runtime) (some_inj y) h
    cases (some true) x =
        let y : some (told, started.1) ≡ some r = sym (rw (check_program, x) refl) ∙ e in
        subst (λ d. IsConsistent d.0.runtime) (some_inj y)
          (subst IsConsistent (sym told-runtime) after_start)

check_programs-IsConsistent :
    (gmtime : ℕ → Tm) (t n : ℕ) (c : Controller) (r : Controller × Bool)
    → IsConsistent c.runtime
    → check_programs gmtime t n c ≡ some r
    → IsConsistent r.0.runtime
unfolding check_programs
check_programs-IsConsistent gmtime t zero c r h e =
    subst (λ d. IsConsistent d.0.runtime) (some_inj e) h
check_programs-IsConsistent gmtime t (suc n) c r h e =
    elim (Option-cases (check_programs gmtime t n c)) [
      | inl x ↦ absurd (clash (sym (rw (check_programs, x) refl) ∙ e))
      | inr (s, x) ↦
          check_program-IsConsistent gmtime t n s r (check_programs-IsConsistent gmtime t n c s h x)
            (sym (rw (check_programs, x) refl) ∙ e)
    ]
  where
    clash : none ≡ some r → ⊥
    clash eq = cc

scheduled_found-IsConsistent :
    (t : ℕ) (found : Bool) (c : Controller)
    → IsConsistent c.runtime
    → IsConsistent (if found then schedule_all_stations t c else c).runtime
scheduled_found-IsConsistent t true c h = schedule-IsConsistent t c h
scheduled_found-IsConsistent t false c h = h

none-some : {d : Controller} → none ≡ some d → ⊥
none-some e = cc

-- When a minute begins, the start of programs keeps the queue consistent, however many programs
-- start: in particular it never holds more than 56 elements. (There is no result if a day test
-- divides by zero.)
pub schedule_programs-IsConsistent :
    (gmtime : ℕ → Tm) (t : ℕ) (c d : Controller)
    → IsConsistent c.runtime
    → schedule_programs gmtime t c ≡ some d
    → IsConsistent d.runtime
unfolding schedule_programs
schedule_programs-IsConsistent gmtime t c d h e =
    elim (Option-cases (check_programs gmtime t c.nprograms c)) [
      | inl x ↦ absurd (none-some (sym (rw (schedule_programs, x) refl) ∙ e))
      | inr ((c', found), x) ↦
          let v = check_programs-IsConsistent gmtime t c.nprograms c (c', found) h x in
          let y : some (if found then schedule_all_stations t c' else c') ≡ some d =
            sym (rw (schedule_programs, x) refl) ∙ e in
          subst (λ s. IsConsistent s.runtime) (state_inj y)
            (scheduled_found-IsConsistent t found c' v)
    ]
  where
    state_inj : {a b : Controller} → some a ≡ some b → a ≡ b
    state_inj eq = cc
