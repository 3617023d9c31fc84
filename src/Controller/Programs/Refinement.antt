-- ===== src/Controller/Programs/Refinement.antt =====
-- The store of programs in non-volatile memory (`ProgramData` of firmware/program.cpp) does what a
-- list of at most 16 programs does.
use native.Mathlib.Numerals.{add-one}
use indigo_open_sprinkler_pl.Common.{
  ℕ, zero, suc, ◌+◌, ◌-◌, ◌≤◌, ◌<◌, ◌≡◌, refl, sym, ◌∙◌, ap, arith, Bool, true, false,
  if◌then◌else◌, ltb, leb, ◌==◌, List, [], ◌∷◌, ◌++◌, length, update, update_self, update_ne, subst,
  replay, dec_lt, leb-true, lt→ltb, ltb-false,
}
use indigo_open_sprinkler_pl.Program.{ProgramStruct}
use indigo_open_sprinkler_pl.Controller.{Controller}
use indigo_open_sprinkler_pl.Controller.Programs.{
  max_number_programs, erase_all, add_program, move_up, modify_program, delete_program, save_count,
  copy_back,
}
use indigo_open_sprinkler_pl.Controller.Programs.Laws.{
  copied-at, delete_yes, delete_no, move_up-nprograms,
}
use indigo_open_sprinkler_pl.Controller.Programs.Listing.{
  tabulate, set, erase_at, swap_at, length-tabulate, tabulate-append, tabulate-set, tabulate-erase,
  tabulate-swap,
}

-- The public operations of `ProgramData` on programs.
pub data Operation : Type 0 where
  clear : Operation
  add : ProgramStruct → Operation
  up : (pid : ℕ) → Operation
  modify : (pid : ℕ) → ProgramStruct → Operation
  delete : (pid : ℕ) → Operation

-- What the store does, with its answer.
abbrev pub run : Operation → Controller → Controller × Bool
run clear c = (erase_all c, true)
run (add prog) c = add_program prog c
run (up pid) c = (move_up pid c, true)
run (modify pid prog) c = modify_program pid prog c
run (delete pid) c = delete_program pid c

-- What it promises of a list, with the answer.
abbrev pub promised : Operation → List ProgramStruct → List ProgramStruct × Bool
promised clear xs = ([], true)
promised (add prog) xs =
    if ltb (length xs) max_number_programs then (xs ++ prog ∷ [], true) else (xs, false)
promised (up zero) xs = (xs, true)
promised (up (suc i)) xs = (swap_at xs i, true)
promised (modify pid prog) xs = (set xs pid prog, ltb pid (length xs))
promised (delete pid) xs = (erase_at xs pid, ltb pid (length xs))

-- The list that a state stands for.
abbrev pub listing : Controller → List ProgramStruct
listing c = tabulate c.nprograms c.programs

abbrev pub view : Controller × Bool → List ProgramStruct × Bool
view (c, b) = (listing c, b)

module _ {ℓ} {A : Type ℓ} where
  set_past : (n i : ℕ) (f : ℕ → A) (v : A) → n ≤ i → set (tabulate n f) i v ≡ tabulate n f
  set_past zero i f v h = refl
  set_past (suc n) zero f v h = absurd (omega arith)
  set_past (suc n) (suc i) f v h = ap (λ xs. f 0 ∷ xs) (set_past n i _ v (omega arith))

  erase_at_past : (n i : ℕ) (f : ℕ → A) → n ≤ i → erase_at (tabulate n f) i ≡ tabulate n f
  erase_at_past zero i f h = refl
  erase_at_past (suc n) zero f h = absurd (omega arith)
  erase_at_past (suc n) (suc i) f h = ap (λ xs. f 0 ∷ xs) (erase_at_past n i _ (omega arith))

  swap_at_past : (n i : ℕ) (f : ℕ → A) → n ≤ suc i → swap_at (tabulate n f) i ≡ tabulate n f
  swap_at_past zero i f h = refl
  swap_at_past (suc zero) i f h = refl
  swap_at_past (suc (suc n)) zero f h = absurd (omega arith)
  swap_at_past (suc (suc n)) (suc i) f h =
      ap (λ xs. f 0 ∷ xs) (swap_at_past (suc n) i (λ j. f (suc j)) (omega arith))

pair-eq :
    (xs ys : List ProgramStruct) (a b : Bool)
    → xs ≡ ys
    → a ≡ b
    → ◌≡◌ {A = List ProgramStruct × Bool} (xs, a) (ys, b)
pair-eq xs ys a b p q = rw (p, q)

add-promised :
    (prog : ProgramStruct) (c : Controller)
    → view (add_program prog c) ≡ promised (add prog) (listing c)
unfolding add_program save_count
add-promised prog c = elim (dec_lt c.nprograms max_number_programs) [
  | yes p ↦
      rw
        (
          add_program,
          length-tabulate c.nprograms c.programs,
          lt→ltb _ _ p,
          below p,
          add-one c.nprograms,
        )
        (pair-eq _ _ _ _
          (tabulate-append c.nprograms c.programs (update c.programs c.nprograms prog) prog
            (λ i lt. update_ne c.programs c.nprograms prog i (λ e. absurd (omega (arith, e))))
            (update_self c.programs c.nprograms prog))
          refl)
  | no p ↦ rw (
    add_program,
    length-tabulate c.nprograms c.programs,
    ltb-false c.nprograms max_number_programs (omega arith),
    leb-true max_number_programs c.nprograms (omega arith),
  )
]
  where
    below : c.nprograms < max_number_programs → leb max_number_programs c.nprograms ≡ false
    below p = ground arith

leb-false : (a b : ℕ) → b < a → leb a b ≡ false
leb-false a b h = ground arith

modify-promised :
    (pid : ℕ) (prog : ProgramStruct) (c : Controller)
    → view (modify_program pid prog c) ≡ promised (modify pid prog) (listing c)
unfolding modify_program
modify-promised pid prog c = elim (dec_lt pid c.nprograms) [
  | yes p ↦
      rw
        (
          modify_program,
          length-tabulate c.nprograms c.programs,
          lt→ltb _ _ p,
          leb-false c.nprograms pid p,
        )
        (pair-eq _ _ _ _
          (subst (λ v. tabulate c.nprograms (update c.programs pid prog) ≡ set (listing c) pid v)
            (update_self c.programs pid prog)
            (tabulate-set c.nprograms pid c.programs (update c.programs pid prog)
              (λ j lt ne. update_ne c.programs pid prog j ne)))
          refl)
  | no p ↦ rw (
    modify_program,
    length-tabulate c.nprograms c.programs,
    ltb-false pid c.nprograms (omega arith),
    leb-true c.nprograms pid (omega arith),
    set_past c.nprograms pid c.programs prog (omega arith),
  )
]

move_up-programs :
    (i : ℕ) (c : Controller) (j : ℕ)
    → suc i < c.nprograms
    → (move_up (suc i) c).programs j
      ≡ (if j == i then c.programs (suc i) else if j == suc i then c.programs i else c.programs j)
unfolding move_up update
move_up-programs i c j h = ground arith

up-promised :
    (pid : ℕ) (c : Controller) → listing (move_up pid c) ≡ (promised (up pid) (listing c)).0
unfolding move_up
up-promised zero c = ground arith
up-promised (suc i) c = elim (dec_lt (suc i) c.nprograms) [
  | yes p ↦
      subst (λ n. tabulate n (move_up (suc i) c).programs ≡ swap_at (listing c) i)
        (sym (move_up-nprograms (suc i) c))
        (tabulate-swap c.nprograms i c.programs (move_up (suc i) c).programs p
          (move_up-programs i c i p ∙ ground arith) (move_up-programs i c (suc i) p ∙ ground arith)
          (λ j lt ne nf. move_up-programs i c j p ∙ ground arith))
  | no p ↦ rw (
    move_up,
    leb-true c.nprograms (suc i) (omega arith),
    swap_at_past c.nprograms i c.programs (omega arith),
  )
]

delete-promised :
    (pid : ℕ) (c : Controller) → view (delete_program pid c) ≡ promised (delete pid) (listing c)
delete-promised pid c = elim (dec_lt pid c.nprograms) [
  | yes p ↦
      rw (delete_yes pid c p, length-tabulate c.nprograms c.programs, lt→ltb _ _ p)
        (pair-eq _ _ _ _ (erased p) refl)
  | no p ↦ rw (
    delete_no pid c (omega arith),
    length-tabulate c.nprograms c.programs,
    ltb-false pid c.nprograms (omega arith),
    erase_at_past c.nprograms pid c.programs (omega arith),
  )
]
  where
    copied : ℕ → ProgramStruct
    copied = replay (c.nprograms - (pid + 1)) (copy_back pid) c.programs

    erased : pid < c.nprograms → tabulate (c.nprograms - 1) copied ≡ erase_at (listing c) pid
    erased p =
        let n : suc (c.nprograms - 1) ≡ c.nprograms = omega arith in
        subst (λ k. tabulate (c.nprograms - 1) copied ≡ erase_at (tabulate k c.programs) pid) n
          (tabulate-erase (c.nprograms - 1) pid c.programs copied (omega arith)
            (λ j lt. copied-at pid (c.nprograms - (pid + 1)) j c.programs ∙ ground arith)
            (λ j ge lt. copied-at pid (c.nprograms - (pid + 1)) j c.programs ∙ ground arith))

-- Every operation on the stored programs does to the list of programs that the state stands for what
-- it promises, on every branch, the refusals included, and gives the promised answer: adding puts a
-- program at the end of a list of fewer than 16, modifying replaces an entry, deleting takes one
-- out, moving up swaps it with the one before, clearing leaves none.
pub run-promised : (o : Operation) (c : Controller) → view (run o c) ≡ promised o (listing c)
unfolding erase_all
run-promised clear c = refl
run-promised (add prog) c = add-promised prog c
run-promised (up zero) c = pair-eq _ _ _ _ (up-promised zero c) refl
run-promised (up (suc i)) c = pair-eq _ _ _ _ (up-promised (suc i) c) refl
run-promised (modify pid prog) c = modify-promised pid prog c
run-promised (delete pid) c = delete-promised pid c

-- Operations one after the other, and what they promise together.
abbrev pub run_all : List Operation → Controller → Controller
run_all [] c = c
run_all (o ∷ os) c = run_all os (run o c).0

abbrev pub promised_all : List Operation → List ProgramStruct → List ProgramStruct
promised_all [] xs = xs
promised_all (o ∷ os) xs = promised_all os (promised o xs).0

-- Any sequence of operations on the stored programs refines the same operations on a list.
pub run_all-promised :
    (os : List Operation) (c : Controller) → listing (run_all os c) ≡ promised_all os (listing c)
run_all-promised [] c = refl
run_all-promised (o ∷ os) c =
    run_all-promised os (run o c).0 ∙ ap (λ x. promised_all os x.0) (run-promised o c)
