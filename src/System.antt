-- ===== src/System.antt =====
-- The controller as a whole: what one round of `do_loop` (firmware/main.cpp) may do to the state,
-- and the states that are reached from one that is safe.
pub mod Kept
pub mod Queueing
pub mod Sensors
pub mod Starting
pub mod Second
pub mod Requests
pub mod Programs
pub mod Options
pub mod Settings
pub mod Safety
pub mod Idle
pub mod Quiet
pub mod Slots
pub mod Total
mod Tests
use indigo_open_sprinkler_pl.Common.{ℕ, ◌+◌, ◌*◌, ◌≤◌, ◌≡◌, Bool, List, Option, some}
use indigo_open_sprinkler_pl.Runtime.Bounds.{IsBounded}
use indigo_open_sprinkler_pl.Program.{Tm}
use indigo_open_sprinkler_pl.Controller.{Controller}
use indigo_open_sprinkler_pl.Controller.Programs.{max_number_programs}
use indigo_open_sprinkler_pl.Controller.Stations.{max_ext_boards}
use indigo_open_sprinkler_pl.Controller.Stations.Bits.{AreBytes}
use indigo_open_sprinkler_pl.MainLoop.{do_second}
use indigo_open_sprinkler_pl.Server.Bounds.{AreInRange}
use indigo_open_sprinkler_pl.Server.Dispatch.{handle_web_request}
use indigo_open_sprinkler_pl.Weather.{periodic}

-- A request that is answered, a second that begins (with the pins and the calendar as they are
-- then), the part about the weather service, with the text that it sends if it is reached, time
-- that passes, or other bytes behind the values in the buffers.
pub data Step (c : Controller) : Controller → Type 0 where
  request : (a b : ℕ) (dat : List ℕ) → Step c (handle_web_request a b dat c).0
  second :
      (gmtime : ℕ → Tm) (pin : ℕ) (minute : Bool) (curr_time : ℕ) {d : Controller}
      → do_second gmtime pin minute curr_time c ≡ some d
      → Step c d
  weather : (curr_time : ℕ) (answer : Option (List ℕ)) → Step c (periodic curr_time answer c)
  tick : (time : ℕ) → Step c (record c { clock = time })
  memory : (rest : List ℕ → List ℕ) → Step c (record c { buffer_rest = rest })

pub data Reach (c : Controller) : Controller → Type 0 where
  start : Reach c c
  later : {d e : Controller} → Reach c d → Step d e → Reach c e

-- Every index into a table of the controller is in the table: queue and links, the bytes of the
-- stations, boards and stations, the options, the slots of the programs.
pub record IsSafe (c : Controller) : Type 0 where
  pub runtime_bounded : IsBounded c.runtime
  pub bytes : AreBytes c
  pub options_in_range : AreInRange c.options
  pub boards : c.nboards ≤ max_ext_boards + 1
  pub stations : c.nstations ≡ c.nboards * 8
  pub programs_bounded : c.nprograms ≤ max_number_programs
