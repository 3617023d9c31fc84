-- ===== src/Controller/Programs/Tests.antt =====
-- Instances of the laws on programs.
use indigo_open_sprinkler_pl.Common.{ℕ, ◌≡◌, refl, update, [], ◌∷◌}
use indigo_open_sprinkler_pl.Program.{ProgramStruct}
use indigo_open_sprinkler_pl.Controller.{Controller}
use indigo_open_sprinkler_pl.Controller.Sample.{sample, evening}
use indigo_open_sprinkler_pl.Controller.Programs.{delete_program, copy_back}
use indigo_open_sprinkler_pl.Controller.Programs.Refinement.{
  add, up, delete, run, promised, listing, view, run_all, promised_all, run-promised,
  run_all-promised,
}

-- Three programs that differ in their days.
abbrev numbered : ℕ → ProgramStruct
numbered i = record evening { days0 = i }

abbrev three : Controller
three = record sample { nprograms = 3; programs = numbered }

delete_run : ((delete_program 1 three).0.programs 1).days0 ≡ 2
unfolding delete_program copy_back update
delete_run = refl

run-promised_example : view (run (delete 1) three) ≡ promised (delete 1) (listing three)
run-promised_example = run-promised (delete 1) three

-- The new program moves up by one place, then the first one goes.
run_all-promised_example :
    listing (run_all (add (numbered 9) ∷ up 3 ∷ delete 0 ∷ []) three)
    ≡ promised_all (add (numbered 9) ∷ up 3 ∷ delete 0 ∷ []) (listing three)
run_all-promised_example = run_all-promised (add (numbered 9) ∷ up 3 ∷ delete 0 ∷ []) three

promised_run :
    promised_all (add (numbered 9) ∷ up 3 ∷ delete 0 ∷ []) (listing three)
    ≡ numbered 1 ∷ numbered 9 ∷ numbered 2 ∷ []
promised_run = refl
