-- ===== src/Controller/Programs/Laws.antt =====
-- The store of programs of firmware/program.cpp, read by index.
use indigo_open_sprinkler_pl.Common.{
  ℕ, zero, suc, ◌+◌, ◌-◌, ◌≤◌, ◌<◌, ◌≡◌, ◌⊎◌, inl, inr, ◌∙◌, ap, arith, true, false, ltb, leb, ◌==◌,
  if◌then◌else◌, ◌||◌, update, replay, dec_lt,
}
use indigo_open_sprinkler_pl.Program.{ProgramStruct}
use indigo_open_sprinkler_pl.Controller.{Controller}
use indigo_open_sprinkler_pl.Controller.Programs.{
  max_number_programs, save_count, read_program, add_program, move_up, copy_back, delete_program,
}

pub copied-at :
    (pid n j : ℕ) (slots : ℕ → ProgramStruct)
    → replay n (copy_back pid) slots j
      ≡ (if leb pid j then (if ltb j (pid + n) then slots (j + 1) else slots j) else slots j)
unfolding copy_back update
copied-at pid zero j slots = ground arith
copied-at pid (suc n) j slots =
    ground (arith, copied-at pid n j slots, copied-at pid n (pid + n + 1) slots)

-- A program that was added is read back at the index behind the others, which stay; the answer is
-- no, and nothing changes, exactly when there are 16 programs.
pub add_program_lem :
    (prog buf : ProgramStruct) (c : Controller)
    → ((max_number_programs ≤ c.nprograms) × (add_program prog c ≡ (c, false)))
      ⊎ ((c.nprograms < max_number_programs)
          × ((add_program prog c).1 ≡ true)
          × ((add_program prog c).0.nprograms ≡ c.nprograms + 1)
          × ((add_program prog c).0.nvm_nprograms ≡ c.nprograms + 1)
          × ((j : ℕ)
              → j ≤ c.nprograms
              → read_program j buf (add_program prog c).0
                ≡ (if j == c.nprograms then prog else read_program j buf c)))
unfolding add_program read_program update save_count
add_program_lem prog buf c = elim (dec_lt c.nprograms max_number_programs) [
  | yes p ↦ inr (p, ground arith, ground arith, ground arith, λ j h. ground arith)
  | no p ↦ inl (omega arith, ground arith)
]

pub delete_yes :
    (pid : ℕ) (c : Controller)
    → pid < c.nprograms
    → delete_program pid c ≡ (
      record c {
        programs = replay (c.nprograms - (pid + 1)) (copy_back pid) c.programs;
        nprograms = c.nprograms - 1;
        nvm_nprograms = c.nprograms - 1;
      },
      true,
    )
unfolding delete_program save_count
delete_yes pid c h = ground arith

pub delete_no : (pid : ℕ) (c : Controller) → c.nprograms ≤ pid → delete_program pid c ≡ (c, false)
unfolding delete_program
delete_no pid c h = ground arith

read-shifted :
    (pid j : ℕ) (buf : ProgramStruct) (c d : Controller)
    → pid < c.nprograms
    → d.nprograms ≡ c.nprograms - 1
    → d.programs j ≡ replay (c.nprograms - (pid + 1)) (copy_back pid) c.programs j
    → read_program j buf d
      ≡ (if ltb j pid then read_program j buf c else read_program (j + 1) buf c)
unfolding read_program
read-shifted pid j buf c d h e f =
    ground (arith, copied-at pid (c.nprograms - (pid + 1)) j c.programs)

-- Deleting a program closes the gap: the programs before it stay at their index, those behind it
-- move one index down, and the saved number of programs is one less. A program that does not exist
-- is refused, and nothing changes.
pub delete_program_lem :
    (pid : ℕ) (buf : ProgramStruct) (c : Controller)
    → ((c.nprograms ≤ pid) × (delete_program pid c ≡ (c, false)))
      ⊎ ((pid < c.nprograms)
          × ((delete_program pid c).1 ≡ true)
          × ((delete_program pid c).0.nprograms ≡ c.nprograms - 1)
          × ((delete_program pid c).0.nvm_nprograms ≡ c.nprograms - 1)
          × ((j : ℕ)
              → read_program j buf (delete_program pid c).0
                ≡ (if ltb j pid then read_program j buf c else read_program (j + 1) buf c)))
unfolding delete_program
delete_program_lem pid buf c = elim (dec_lt pid c.nprograms) [
  | yes p ↦
      let e = delete_yes pid c p in
      inr (
        p,
        ap (λ x. x.1) e,
        ap (λ x. x.0.nprograms) e,
        ap (λ x. x.0.nvm_nprograms) e,
        λ j.
            read-shifted pid j buf c (delete_program pid c).0 p (ap (λ x. x.0.nprograms) e)
              (ap (λ x. x.0.programs j) e),
      )
  | no p ↦ inl (omega arith, ground arith)
]

move_up-at :
    (pid : ℕ) (c : Controller) (j : ℕ)
    → (move_up pid c).programs j ≡ (
        if leb c.nprograms pid || (pid == 0)
        then c.programs j
        else if j == pid - 1
        then c.programs pid
        else if j == pid
        then c.programs (pid - 1)
        else c.programs j)
unfolding move_up update
move_up-at pid c j = ground arith

pub move_up-nprograms : (pid : ℕ) (c : Controller) → (move_up pid c).nprograms ≡ c.nprograms
unfolding move_up
move_up-nprograms pid c = ground arith

-- Moving a program up swaps it with the one above; doing so twice gives every program back.
pub move_up_twice :
    (pid : ℕ) (c : Controller)
    → 0 < pid
    → pid < c.nprograms
    → ((move_up pid c).programs (pid - 1) ≡ c.programs pid)
      × ((move_up pid c).programs pid ≡ c.programs (pid - 1))
      × ((j : ℕ) → (move_up pid (move_up pid c)).programs j ≡ c.programs j)
move_up_twice pid c h k =
    let at = move_up-at pid c in
    let n = move_up-nprograms pid c in
    (
      at (pid - 1) ∙ ground arith,
      at pid ∙ ground arith,
      λ j. move_up-at pid (move_up pid c) j ∙ ground (arith, n, at j, at pid, at (pid - 1)),
    )
