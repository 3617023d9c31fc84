-- ===== src/System/Programs.antt =====
-- The handlers of programs keep the state safe (firmware/server.cpp).
use indigo_open_sprinkler_pl.Common.{
  [], ℕ, zero, suc, ◌+◌, ◌-◌, ◌%◌, ◌≤◌, ◌<◌, ◌≡◌, arith, Bool, true, false, ◌&&◌, if◌then◌else◌,
  ltb, leb, Option, none, some, List, update, dec_lt, leb-true,
}
use indigo_open_sprinkler_pl.Common.Int.{ℤ, pos, negsuc}
use indigo_open_sprinkler_pl.Http.{find_list, decoded}
use indigo_open_sprinkler_pl.Program.{ProgramStruct}
use indigo_open_sprinkler_pl.Controller.{Controller, now_tz}
use indigo_open_sprinkler_pl.Controller.Programs.{
  erase_all, add_program, move_up, modify_program, delete_program, max_number_programs,
}
use indigo_open_sprinkler_pl.Server.{
  Result, html_success, html_data_missing, html_data_out_of_bound, int_of, key_pid,
}
use indigo_open_sprinkler_pl.Server.Programs.{
  key_name, server_delete_program, server_moveup_program, server_change_program, change_program,
  answer, parse_program, name_of,
}
use indigo_open_sprinkler_pl.System.{IsSafe}
use indigo_open_sprinkler_pl.System.Queueing.{if-IsSafe, FirstIsSafe}
use indigo_open_sprinkler_pl.System.Requests.{if-answer}

-- The slots of the programs are written, and counted anew.
programs-IsSafe :
    (c : Controller) (slots : ℕ → ProgramStruct) (n m : ℕ)
    → n ≤ max_number_programs
    → IsSafe c
    → IsSafe (record c { programs = slots; nprograms = n; nvm_nprograms = m })
programs-IsSafe c slots n m le h = record {
  runtime_bounded = h.runtime_bounded;
  bytes = h.bytes;
  options_in_range = h.options_in_range;
  boards = h.boards;
  stations = h.stations;
  programs_bounded = le;
}

erase_all-IsSafe : (c : Controller) → IsSafe c → IsSafe (erase_all c)
unfolding erase_all
erase_all-IsSafe c h = programs-IsSafe c c.programs 0 0 (omega arith) h

full-false : (n : ℕ) → n < max_number_programs → leb max_number_programs n ≡ false
full-false n h = ground arith

if-FirstIsSafe :
    (b : Bool) (s t : Controller × Bool)
    → FirstIsSafe s
    → FirstIsSafe t
    → FirstIsSafe (if b then s else t)
if-FirstIsSafe true s t h k = h
if-FirstIsSafe false s t h k = k

add_program-IsSafe :
    (prog : ProgramStruct) (c : Controller) → IsSafe c → FirstIsSafe (add_program prog c)
unfolding add_program
add_program-IsSafe prog c h = elim (dec_lt c.nprograms max_number_programs) [
  | yes lt ↦ rw (full-false c.nprograms lt) (programs-IsSafe c _ _ _ (omega arith) h)
  | no ge ↦ rw (leb-true max_number_programs c.nprograms (omega arith)) h
]

move_up-IsSafe : (pid : ℕ) (c : Controller) → IsSafe c → IsSafe (move_up pid c)
unfolding move_up
move_up-IsSafe pid c h =
    if-IsSafe _ h (programs-IsSafe c _ c.nprograms c.nvm_nprograms h.programs_bounded h)

modify_program-IsSafe :
    (pid : ℕ) (prog : ProgramStruct) (c : Controller)
    → IsSafe c
    → FirstIsSafe (modify_program pid prog c)
unfolding modify_program
modify_program-IsSafe pid prog c h =
    if-FirstIsSafe (leb c.nprograms pid) (c, false)
      (record c { programs = update c.programs pid prog }, true) h
      (programs-IsSafe c _ c.nprograms c.nvm_nprograms h.programs_bounded h)

delete_program-IsSafe : (pid : ℕ) (c : Controller) → IsSafe c → FirstIsSafe (delete_program pid c)
unfolding delete_program
delete_program-IsSafe pid c h =
    if-FirstIsSafe (leb c.nprograms pid) (c, false) (_, true) h
      (programs-IsSafe c _ (c.nprograms - 1) _ (omega (arith, h.programs_bounded)) h)

pub server_delete_program-IsSafe :
    (p : List ℕ) (c : Controller) → IsSafe c → FirstIsSafe (server_delete_program p c)
unfolding server_delete_program
server_delete_program-IsSafe p c h = go (int_of key_pid p)
  where
    go :
        (o : Option ℤ)
        → let next : Controller × Result = elim o [
          | none ↦ (c, html_data_missing)
          | some (negsuc zero) ↦ (erase_all c, html_success)
          | some (negsuc (suc n)) ↦ ((delete_program (255 - suc n % 256) c).0, html_success)
          | some (pos pid) ↦
              if ltb pid c.nprograms
              then ((delete_program pid c).0, html_success)
              else (c, html_data_out_of_bound)
        ] in
          FirstIsSafe next
    go none = h
    go (some (negsuc zero)) = erase_all-IsSafe c h
    go (some (negsuc (suc n))) = delete_program-IsSafe _ c h
    go (some (pos pid)) = if-answer _ _ _ (delete_program-IsSafe pid c h) h

pub server_moveup_program-IsSafe :
    (p : List ℕ) (c : Controller) → IsSafe c → FirstIsSafe (server_moveup_program p c)
unfolding server_moveup_program
server_moveup_program-IsSafe p c h = go (int_of key_pid p)
  where
    go :
        (o : Option ℤ)
        → let next : Controller × Result = elim o [
          | none ↦ (c, html_data_missing)
          | some (negsuc n) ↦ (c, html_data_out_of_bound)
          | some (pos pid) ↦
              if leb 1 pid && ltb pid c.nprograms
              then (move_up pid c, html_success)
              else (c, html_data_out_of_bound)
        ] in
          FirstIsSafe next
    go none = h
    go (some (negsuc n)) = h
    go (some (pos pid)) = if-answer _ _ _ (move_up-IsSafe pid c h) h

answer-IsSafe : (s : Controller × Bool) → FirstIsSafe s → FirstIsSafe (answer s)
answer-IsSafe (c, true) h = h
answer-IsSafe (c, false) h = h

change_program-IsSafe :
    (p : List ℕ) (pid : Option ℕ) (c : Controller) → IsSafe c → FirstIsSafe (change_program p pid c)
unfolding change_program
change_program-IsSafe p pid c h = go (find_list 100 118 61 (decoded p (c.buffer_rest []))) pid
  where
    go :
        (o : Option (List ℕ)) (q : Option ℕ)
        → let number : ℕ = elim q [ none ↦ c.nprograms + 1 | some i ↦ i + 1 ] in
          let next : Controller × Result = elim o [
            | none ↦ (c, html_data_missing)
            | some pv ↦
                let prog =
                  parse_program
                    (name_of p (c.buffer_rest key_name) number)
                    c.nstations
                    (now_tz c)
                    pv in
                answer (elim q [ none ↦ add_program prog c | some i ↦ modify_program i prog c ])
          ] in
          FirstIsSafe next
    go none q = h
    go (some pv) none = answer-IsSafe _ (add_program-IsSafe _ c h)
    go (some pv) (some i) = answer-IsSafe _ (modify_program-IsSafe i _ c h)

pub server_change_program-IsSafe :
    (p : List ℕ) (c : Controller) → IsSafe c → FirstIsSafe (server_change_program p c)
unfolding server_change_program
server_change_program-IsSafe p c h = go (int_of key_pid p)
  where
    go :
        (o : Option ℤ)
        → let next : Controller × Result = elim o [
          | none ↦ (c, html_data_missing)
          | some (negsuc zero) ↦ change_program p none c
          | some (negsuc (suc n)) ↦ (c, html_data_out_of_bound)
          | some (pos pid) ↦
              if ltb pid c.nprograms
              then change_program p (some pid) c
              else (c, html_data_out_of_bound)
        ] in
          FirstIsSafe next
    go none = h
    go (some (negsuc zero)) = change_program-IsSafe p none c h
    go (some (negsuc (suc n))) = h
    go (some (pos pid)) = if-answer _ _ _ (change_program-IsSafe p (some pid) c h) h
