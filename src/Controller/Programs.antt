-- ===== src/Controller/Programs.antt =====
-- The programs in non-volatile memory (`ProgramData` of firmware/program.cpp). A slot is the block of
-- `PROGRAMSTRUCT_SIZE` bytes of a program; blocks do not overlap, so a slot is read and written as a
-- whole.
pub mod Laws
pub mod Listing
pub mod Refinement
mod Tests
use indigo_open_sprinkler_pl.Common.{
  ℕ, zero, suc, ◌+◌, ◌-◌, ◌*◌, Bool, true, false, ltb, leb, ◌==◌, if◌then◌else◌, ◌||◌, update,
  replay, Option, none, some,
}
use indigo_open_sprinkler_pl.Program.{ProgramStruct}
use indigo_open_sprinkler_pl.Controller.{Controller}

abbrev pub max_number_programs : ℕ
max_number_programs = 16

unfoldable pub load_count : Controller → Controller
load_count c = record c { nprograms = c.nvm_nprograms }

unfoldable pub save_count : Controller → Controller
save_count c = record c { nvm_nprograms = c.nprograms }

unfoldable pub erase_all : Controller → Controller
unfolding save_count
erase_all c = save_count (record c { nprograms = 0 })

-- The buffer stays as it was for a program that does not exist.
unfoldable pub read_program : ℕ → ProgramStruct → Controller → ProgramStruct
read_program pid buf c = if leb c.nprograms pid then buf else c.programs pid

unfoldable pub add_program : ProgramStruct → Controller → Controller × Bool
unfolding save_count
add_program buf c =
    let added =
      save_count
        (record c { programs = update c.programs c.nprograms buf; nprograms = c.nprograms + 1 }) in
    if leb max_number_programs c.nprograms then (c, false) else (added, true)

unfoldable pub move_up : ℕ → Controller → Controller
move_up pid c =
    let tmp1 = c.programs (pid - 1) in
    let tmp2 = c.programs pid in
    if leb c.nprograms pid || (pid == 0)
    then c
    else record c { programs = update (update c.programs pid tmp1) (pid - 1) tmp2 }

unfoldable pub modify_program : ℕ → ProgramStruct → Controller → Controller × Bool
modify_program pid buf c =
    if leb c.nprograms pid
    then (c, false)
    else (record c { programs = update c.programs pid buf }, true)

-- Round i of the loop of `del`: the slot behind is copied backward.
unfoldable pub copy_back : ℕ → ℕ → (ℕ → ProgramStruct) → ℕ → ProgramStruct
copy_back pid i slots = update slots (pid + i) (slots (pid + i + 1))

unfoldable pub delete_program : ℕ → Controller → Controller × Bool
unfolding save_count
delete_program pid c =
    let copied = replay (c.nprograms - (pid + 1)) (copy_back pid) c.programs in
    let deleted = save_count (record c { programs = copied; nprograms = c.nprograms - 1 }) in
    if leb c.nprograms pid then (c, false) else (deleted, true)
