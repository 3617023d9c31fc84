-- ===== src/Setup/Safe.antt =====
-- The state that the start of the controller (`do_setup`) begins with, and the states reached from
-- it.
use indigo_open_sprinkler_pl.Common.{
  ℕ, ◌+◌, ◌%◌, ◌*◌, ◌≤◌, ◌<◌, ◌≡◌, ◌⊎◌, inl, inr, ◌∙◌, sym, subst, ap, arith, Bool, true, false,
  ◌==◌, if◌then◌else◌,
}
use indigo_open_sprinkler_pl.Runtime.Bounds.{IsBounded, reset_runtime-IsBounded}
use indigo_open_sprinkler_pl.Controller.{Controller}
use indigo_open_sprinkler_pl.Controller.OptionIndex.{
  num_options, op_max, option_ext_boards, option_fw_minor,
}
use indigo_open_sprinkler_pl.Controller.Programs.{max_number_programs}
use indigo_open_sprinkler_pl.Controller.Stations.{clear_all_station_bits}
use indigo_open_sprinkler_pl.Controller.Stations.Frame.{
  clear_all_station_bits-RunFrame, apply_all_station_bits-RunFrame,
}
use indigo_open_sprinkler_pl.Server.Bounds.{AreInRange}
use indigo_open_sprinkler_pl.System.{IsSafe, Reach}
use indigo_open_sprinkler_pl.Setup.Closed.{power_on-AreBytes}
use indigo_open_sprinkler_pl.System.Safety.{Reach-IsSafe}
use indigo_open_sprinkler_pl.Setup.{
  power_on, begin, needs_reset, default_options, factory_reset, do_setup, default_password,
}
use indigo_open_sprinkler_pl.Setup.Kept.{
  IsStoredAs, begin-IsStoredAs, do_setup-loaded, factory_reset-stored, do_setup-password, stored,
  stored-kept, do_setup-kept, begin-bits, clear_all_station_bits-AreBytes,
}

default_options-AreInRange : (hw : ℕ) → AreInRange (default_options hw)
unfolding default_options op_max
default_options-AreInRange hw oid lt ranged = ground arith

begin-options : (c : Controller) → (begin c).options ≡ c.options
unfolding begin
begin-options c =
    (apply_all_station_bits-RunFrame (clear_all_station_bits c)).frame.options_same
    ∙ (clear_all_station_bits-RunFrame c).frame.options_same

-- What the options are loaded from is in range.
abbrev IsLoadable : Controller → Type 0
IsLoadable s = AreInRange s.nvm_options × (s.nvm_nprograms ≤ max_number_programs)

stored-IsLoadable :
    (hw : ℕ) (c : Controller)
    → (needs_reset c ≡ true) ⊎ IsLoadable c
    → IsLoadable (stored (begin (power_on hw c)))
unfolding needs_reset power_on
stored-IsLoadable hw c h = go (needs_reset p) h'
  where
    p : Controller
    p = begin (power_on hw c)

    same : IsStoredAs c p
    same = begin-IsStoredAs (power_on hw c)

    h' : (needs_reset p ≡ true) ⊎ IsLoadable p
    h' = rw (same.0, same.1) h

    default : p.options ≡ default_options hw
    default = begin-options (power_on hw c)

    reset : IsLoadable (factory_reset p)
    reset =
        let (kept, none) = factory_reset-stored p in
        (
          λ oid lt ranged. rw (kept oid lt, default) (default_options-AreInRange hw oid lt ranged),
          omega (arith, none),
        )

    go : (b : Bool) → (b ≡ true) ⊎ IsLoadable p → IsLoadable (if b then factory_reset p else p)
    go true k = reset
    go false (inl e) = absurd (cc)
    go false (inr k) = k

do_setup-IsSafe :
    (hw : ℕ) (network : Bool) (c : Controller)
    → (needs_reset c ≡ true) ⊎ IsLoadable c
    → IsSafe (do_setup network (power_on hw c))
unfolding op_max
do_setup-IsSafe hw network c h =
    let p = power_on hw c in
    let (range, count) = stored-IsLoadable hw c h in
    let (bits, valves, busy, queue, programs) = do_setup-kept network p in
    let (options, boards, stations) = do_setup-loaded network p in
    let ext : (stored (begin p)).nvm_options option_ext_boards ≤ 6 =
      range option_ext_boards (omega arith) (omega arith) in
    record {
      runtime_bounded = subst IsBounded (sym queue) (reset_runtime-IsBounded _);
      bytes = λ b.
          rw (bits, (stored-kept (begin p)).0, begin-bits p)
            (clear_all_station_bits-AreBytes p (power_on-AreBytes hw c) b);
      options_in_range = λ oid lt ranged.
          rw (options oid lt)
            (chosen (oid == option_fw_minor) _ (op_max oid) (range oid lt ranged));
      boards = rw boards (omega (arith, ext));
      stations = rw (boards, stations) (omega (arith, ext));
      programs_bounded = rw programs count;
    }
  where
    chosen : (b : Bool) (x m : ℕ) → x ≤ m → (if b then 0 else x) ≤ m
    chosen true x m k = omega arith
    chosen false x m k = k

-- Whatever is in the non-volatile memory when the controller is switched on, if a factory reset is
-- due or the options that are stored are in range and at most 16 programs are: every state that is
-- reached after `do_setup`, by any requests, seconds and weather reports, is safe.
pub started-IsSafe :
    (hw : ℕ) (network : Bool) (c : Controller) {d : Controller}
    → (needs_reset c ≡ true) ⊎ (AreInRange c.nvm_options × (c.nvm_nprograms ≤ max_number_programs))
    → Reach (do_setup network (power_on hw c)) d
    → IsSafe d
started-IsSafe hw network c h r = Reach-IsSafe r (do_setup-IsSafe hw network c h)

-- When a factory reset is due, the controller starts with 8 stations, no program and the default
-- password, and every option has its default (the minor version of the firmware is that of this
-- one, 0), whatever was stored before.
pub do_setup-reset :
    (hw : ℕ) (network : Bool) (c : Controller)
    → needs_reset c ≡ true
    → let d = do_setup network (power_on hw c) in
      (d.nstations ≡ 8)
      × (d.nprograms ≡ 0)
      × (d.texts.password ≡ default_password)
      × ((oid : ℕ)
          → oid < num_options
          → d.options oid ≡ (if oid == option_fw_minor then 0 else default_options hw oid))
unfolding needs_reset power_on default_options
do_setup-reset hw network c h = (
  stations ∙ ap (λ x. (x + 1) % 256 * 8 % 256) (value option_ext_boards (omega arith)),
  (do_setup-kept network p).4 ∙ ap (λ s. s.nvm_nprograms) s ∙ (factory_reset-stored (begin p)).1,
  do_setup-password network p due,
  λ oid lt. options oid lt ∙ ap (λ x. if oid == option_fw_minor then 0 else x) (value oid lt),
)
  where
    p : Controller
    p = power_on hw c

    due : needs_reset (begin p) ≡ true
    due = rw (begin-IsStoredAs p).0 h

    s : stored (begin p) ≡ factory_reset (begin p)
    s = ap (λ b. if b then factory_reset (begin p) else begin p) due

    value :
        (oid : ℕ) → oid < num_options → (stored (begin p)).nvm_options oid ≡ default_options hw oid
    value oid lt =
        ap (λ s. s.nvm_options oid) s
        ∙ (factory_reset-stored (begin p)).0 oid lt
        ∙ ap (λ o. o oid) (begin-options p)

    options :
        (oid : ℕ)
        → oid < num_options
        → (do_setup network p).options oid
          ≡ (if oid == option_fw_minor then 0 else (stored (begin p)).nvm_options oid)
    options = (do_setup-loaded network p).0

    stations :
        (do_setup network p).nstations
        ≡ ((stored (begin p)).nvm_options option_ext_boards + 1) % 256 * 8 % 256
    stations = (do_setup-loaded network p).2
