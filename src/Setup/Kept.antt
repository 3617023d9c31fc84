-- ===== src/Setup/Kept.antt =====
-- What the start of the controller (`do_setup`) does not touch once `begin` is done.
use indigo_open_sprinkler_pl.Common.{
  ℕ, ◌+◌, ◌*◌, ◌%◌, ◌<◌, ◌≡◌, refl, arith, Bool, true, false, ◌==◌, if◌then◌else◌, replay_inv,
  lt→ltb, update,
}
use indigo_open_sprinkler_pl.Runtime.{reset_runtime}
use indigo_open_sprinkler_pl.Controller.{Controller}
use indigo_open_sprinkler_pl.Controller.Stations.{
  set_station_bit, switch_special_station, clear_all_station_bits, apply_all_station_bits,
}
use indigo_open_sprinkler_pl.Controller.Stations.Bits.{AreBytes, set_station_bit-AreBytes}
use indigo_open_sprinkler_pl.Controller.Settings.{
  options_load, options_save, apply_options, nvdata_load, nvdata_save,
}
use indigo_open_sprinkler_pl.Controller.OptionIndex.{
  num_options, option_ext_boards, option_fw_minor,
}
use indigo_open_sprinkler_pl.Controller.Programs.{load_count}
use indigo_open_sprinkler_pl.System.Kept.{apply_all_station_bits-Unchanged}
use indigo_open_sprinkler_pl.Setup.{
  default_texts, default_password, begin, needs_reset, wipe, factory_reset, options_setup,
  init_programs, do_setup,
}

-- The state before the options are loaded: after the reset, or as it was.
abbrev pub stored : Controller → Controller
stored c = if needs_reset c then factory_reset c else c

pub stored-kept :
    (c : Controller)
    → ((stored c).station_bits ≡ c.station_bits)
      × ((stored c).valves ≡ c.valves)
      × ((stored c).status.program_busy ≡ c.status.program_busy)
      × ((stored c).runtime ≡ c.runtime)
unfolding factory_reset wipe options_save apply_options nvdata_save
stored-kept c = go (needs_reset c)
  where
    go :
        (b : Bool)
        → let d = if b then factory_reset c else c in
          (d.station_bits ≡ c.station_bits)
          × (d.valves ≡ c.valves)
          × (d.status.program_busy ≡ c.status.program_busy)
          × (d.runtime ≡ c.runtime)
    go true = (refl, refl, refl, refl)
    go false = (refl, refl, refl, refl)

pub do_setup-kept :
    (network : Bool) (c : Controller)
    → let d = do_setup network c in
      (d.station_bits ≡ (stored (begin c)).station_bits)
      × (d.valves ≡ (stored (begin c)).valves)
      × (d.status.program_busy ≡ (stored (begin c)).status.program_busy)
      × (d.runtime ≡ reset_runtime (stored (begin c)).runtime)
      × (d.nprograms ≡ (stored (begin c)).nvm_nprograms)
unfolding do_setup init_programs load_count options_setup options_load apply_options nvdata_load
do_setup-kept network c = (refl, refl, refl, refl, refl)

pub clear_all_station_bits-AreBytes :
    (c : Controller) → AreBytes c → AreBytes (clear_all_station_bits c)
unfolding clear_all_station_bits
clear_all_station_bits-AreBytes c h =
    replay_inv AreBytes 57 (λ sid s. (set_station_bit sid false s).0) c
      (λ sid lt d k. set_station_bit-AreBytes sid false d k) h

pub begin-bits : (c : Controller) → (begin c).station_bits ≡ (clear_all_station_bits c).station_bits
unfolding begin
begin-bits c = (apply_all_station_bits-Unchanged (clear_all_station_bits c)).tables.bits_same

-- The options and the number of programs in non-volatile memory are the same.
abbrev pub IsStoredAs : Controller → Controller → Type 0
IsStoredAs c d = (d.nvm_options ≡ c.nvm_options) × (d.nvm_nprograms ≡ c.nvm_nprograms)

set_station_bit-IsStoredAs :
    (sid : ℕ) (c d : Controller) → IsStoredAs c d → IsStoredAs c (set_station_bit sid false d).0
unfolding set_station_bit switch_special_station
set_station_bit-IsStoredAs sid c d h = ground arith

apply_all_station_bits-IsStoredAs :
    (c d : Controller) → IsStoredAs c d → IsStoredAs c (apply_all_station_bits d)
unfolding apply_all_station_bits switch_special_station
apply_all_station_bits-IsStoredAs c d h = ground arith

pub begin-IsStoredAs : (c : Controller) → IsStoredAs c (begin c)
unfolding begin clear_all_station_bits
begin-IsStoredAs c = apply_all_station_bits-IsStoredAs c _ (
    replay_inv (IsStoredAs c) 57 (λ sid s. (set_station_bit sid false s).0) c
      (λ sid lt d k. set_station_bit-IsStoredAs sid c d k) (refl, refl))

-- What the options are loaded to, and the numbers of boards and stations.
pub do_setup-loaded :
    (network : Bool) (c : Controller)
    → let d = do_setup network c in
      let s = stored (begin c) in
      ((oid : ℕ)
        → oid < num_options
        → d.options oid ≡ (if oid == option_fw_minor then 0 else s.nvm_options oid))
      × (d.nboards ≡ (s.nvm_options option_ext_boards + 1) % 256)
      × (d.nstations ≡ (s.nvm_options option_ext_boards + 1) % 256 * 8 % 256)
unfolding do_setup init_programs load_count options_setup options_load apply_options nvdata_load
    update needs_reset
do_setup-loaded network c = (λ oid lt. rw (lt→ltb oid num_options lt) refl, refl, refl)

-- A reset stores the options as they are, and no program.
pub factory_reset-stored :
    (c : Controller)
    → ((oid : ℕ) → oid < num_options → (factory_reset c).nvm_options oid ≡ c.options oid)
      × ((factory_reset c).nvm_nprograms ≡ 0)
unfolding factory_reset wipe options_save apply_options nvdata_save
factory_reset-stored c = (λ oid lt. rw (lt→ltb oid num_options lt) refl, refl)

-- A reset gives the password of a new controller.
pub do_setup-password :
    (network : Bool) (c : Controller)
    → needs_reset (begin c) ≡ true
    → (do_setup network c).texts.password ≡ default_password
unfolding do_setup init_programs load_count options_setup options_load apply_options nvdata_load
    factory_reset wipe options_save nvdata_save default_texts
do_setup-password network c h = rw h refl
