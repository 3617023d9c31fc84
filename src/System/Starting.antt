-- ===== src/System/Starting.antt =====
-- The start of programs keeps the state safe (`do_loop` of firmware/main.cpp).
use indigo_open_sprinkler_pl.Common.{
  inl, inr, ℕ, zero, suc, ◌+◌, ◌<◌, ◌≡◌, refl, sym, ◌∙◌, subst, arith, Bool, true, false,
  if◌then◌else◌, none, some, Option, Option-cases, replay, replay_inv,
}
use indigo_open_sprinkler_pl.Common.Int.{ℤ, pos}
use indigo_open_sprinkler_pl.Runtime.{max_num_stations}
use indigo_open_sprinkler_pl.Program.{ProgramStruct, Tm, check_match}
use indigo_open_sprinkler_pl.Controller.{Controller, push_message, program_sched}
use indigo_open_sprinkler_pl.Controller.OptionIndex.{option_water_percentage}
use indigo_open_sprinkler_pl.Scheduler.{schedule_all_stations}
use indigo_open_sprinkler_pl.MainLoop.{
  program_station, program_water_time, check_program, check_programs, schedule_programs,
}
use indigo_open_sprinkler_pl.System.{IsSafe}
use indigo_open_sprinkler_pl.System.Kept.{Unchanged-IsSafe, push_message-Unchanged}
use indigo_open_sprinkler_pl.System.Queueing.{
  nstations-le, add_element-IsSafe, schedule_all_stations-IsSafe, if-IsSafe, FirstIsSafe,
}

pub none-some : {d : Controller} → none ≡ some d → ⊥
none-some e = cc

pub some-inj {ℓ} : {A : Type ℓ} {a b : A} → some a ≡ some b → a ≡ b
some-inj e = cc

program_station-IsSafe :
    (pid : ℕ) (prog : ProgramStruct) (sid : ℕ) (s : Controller × Bool)
    → sid < max_num_stations
    → FirstIsSafe s
    → FirstIsSafe (program_station pid prog sid s)
unfolding program_station
program_station-IsSafe pid prog sid s lt h =
    ground (arith, add_element-IsSafe sid (pid + 1) (program_water_time prog sid s.0) s.0 lt h)

check_program-IsSafe :
    (gmtime : ℕ → Tm) (t pid : ℕ) (s r : Controller × Bool)
    → FirstIsSafe s
    → check_program gmtime t pid s ≡ some r
    → FirstIsSafe r
unfolding check_program
check_program-IsSafe gmtime t pid s r h e =
    cases (check_match gmtime s.0.nvdata.sunrise_time s.0.nvdata.sunset_time (s.0.programs pid) t)
      refl
  where
    started : Controller × Bool
    started = replay s.0.nstations (program_station pid (s.0.programs pid)) s

    started-IsSafe : FirstIsSafe started
    started-IsSafe =
        replay_inv FirstIsSafe s.0.nstations (program_station pid (s.0.programs pid)) s
          (λ sid lt x.
            program_station-IsSafe pid (s.0.programs pid) sid x (omega (arith, nstations-le h)))
          h

    level : ℤ
    level =
        if (s.0.programs pid).use_weather
        then pos (started.0.options option_water_percentage)
        else pos 100

    told : Controller
    told = if started.1 then push_message program_sched pid level started.0 else started.0

    told-IsSafe : IsSafe told
    told-IsSafe =
        if-IsSafe started.1
          (Unchanged-IsSafe (push_message-Unchanged program_sched pid level started.0)
            started-IsSafe)
          started-IsSafe

    cases :
        (m : Option Bool)
        → check_match gmtime s.0.nvdata.sunrise_time s.0.nvdata.sunset_time (s.0.programs pid) t ≡ m
        → FirstIsSafe r
    cases none x = absurd (clash (sym (rw (check_program, x) refl) ∙ e))
      where
        clash : none ≡ some r → ⊥
        clash eq = cc
    cases (some false) x =
        let y : some s ≡ some r = sym (rw (check_program, x) refl) ∙ e in
        subst FirstIsSafe (some-inj y) h
    cases (some true) x =
        let y : some (told, started.1) ≡ some r = sym (rw (check_program, x) refl) ∙ e in
        subst FirstIsSafe (some-inj y) told-IsSafe

check_programs-IsSafe :
    (gmtime : ℕ → Tm) (t n : ℕ) (c : Controller) (r : Controller × Bool)
    → IsSafe c
    → check_programs gmtime t n c ≡ some r
    → FirstIsSafe r
unfolding check_programs
check_programs-IsSafe gmtime t zero c r h e = subst FirstIsSafe (some-inj e) h
check_programs-IsSafe gmtime t (suc n) c r h e = elim (Option-cases (check_programs gmtime t n c)) [
  | inl x ↦ absurd (clash (sym (rw (check_programs, x) refl) ∙ e))
  | inr (s, x) ↦
      check_program-IsSafe gmtime t n s r (check_programs-IsSafe gmtime t n c s h x)
        (sym (rw (check_programs, x) refl) ∙ e)
]
  where
    clash : none ≡ some r → ⊥
    clash eq = cc

pub schedule_programs-IsSafe :
    (gmtime : ℕ → Tm) (t : ℕ) (c d : Controller)
    → IsSafe c
    → schedule_programs gmtime t c ≡ some d
    → IsSafe d
unfolding schedule_programs
schedule_programs-IsSafe gmtime t c d h e =
    elim (Option-cases (check_programs gmtime t c.nprograms c)) [
      | inl x ↦ absurd (none-some (sym (rw (schedule_programs, x) refl) ∙ e))
      | inr ((c', found), x) ↦
          let k = check_programs-IsSafe gmtime t c.nprograms c (c', found) h x in
          let y : some (if found then schedule_all_stations t c' else c') ≡ some d =
            sym (rw (schedule_programs, x) refl) ∙ e in
          subst IsSafe (some-inj y) (if-IsSafe found (schedule_all_stations-IsSafe t c' k) k)
    ]
