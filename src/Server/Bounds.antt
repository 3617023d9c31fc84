-- ===== src/Server/Bounds.antt =====
-- Requests without the password, and the options that requests set (firmware/server.cpp).
use indigo_open_sprinkler_pl.Common.{
  ℕ, zero, suc, ◌≤◌, ◌<◌, ◌≡◌, ◌⊎◌, inl, inr, refl, ◌∙◌, ap, subst, arith, Bool, true, false, ◌==◌,
  if◌then◌else◌, List, Option, none, some, Bool-cases, Option-cases, ℕ_discrete, update, replay,
}
use indigo_open_sprinkler_pl.Http.{find_nonempty}
use indigo_open_sprinkler_pl.Controller.{Controller}
use indigo_open_sprinkler_pl.Controller.OptionIndex.{num_options, op_max}
use indigo_open_sprinkler_pl.Server.{check_password}
use indigo_open_sprinkler_pl.Server.Options.{
  Changes, option_value, change_option, change_all_options, key_option, is_protected,
}
use indigo_open_sprinkler_pl.Server.Dispatch.{
  prints, command_of, needs_password, run_command, handle_web_request,
}

open_command : (a b : ℕ) → needs_password a b ≡ false → command_of a b ≡ some (prints a b)
unfolding command_of
open_command a b h = ground arith

-- A request without the right password changes nothing at all, whatever its command and its text
-- are.
pub handle_web_request_locked :
    (a b : ℕ) (dat : List ℕ) (c : Controller)
    → check_password dat c ≡ false
    → (handle_web_request a b dat c).0 ≡ c
unfolding handle_web_request run_command
handle_web_request_locked a b dat c h = elim (Bool-cases (a == 32)) [
  | inl home ↦ rw home
  | inr other ↦ elim (Bool-cases (needs_password a b)) [
    | inl locked ↦ elim (Option-cases (command_of a b)) [
      | inl e ↦ rw (other, e)
      | inr (command, e) ↦ rw (other, e, locked, h)
    ]
    | inr free ↦ rw (other, open_command a b free, free)
  ]
]

-- Every option is within its range, except those whose greatest value is given as 0: the versions
-- of the firmware and of the hardware, which have no range.
abbrev pub AreInRange : (ℕ → ℕ) → Type 0
AreInRange options = (oid : ℕ) → oid < num_options → 0 < op_max oid → options oid ≤ op_max oid

option_value_bound :
    (oid : ℕ) (text : Option (List ℕ)) (prev : ℕ)
    → prev ≤ op_max oid
    → (option_value oid text prev).0 ≤ op_max oid
unfolding option_value
option_value_bound oid none prev h = ground arith
option_value_bound oid (some text) prev h = ground arith

change_option-options :
    (p : List ℕ) (oid j : ℕ) (k : Changes)
    → (change_option p oid k).options j ≡ (
        if is_protected oid
        then k.options j
        else if j == oid
        then (option_value oid (find_nonempty (key_option oid) p) (k.options oid)).0
        else k.options j)
unfolding change_option update
change_option-options p oid j k = elim (Bool-cases (is_protected oid)) [
  | inl e ↦ rw e
  | inr e ↦ rw e
]

change_option-AreInRange :
    (p : List ℕ) (oid : ℕ) (k : Changes)
    → oid < num_options
    → AreInRange k.options
    → AreInRange (change_option p oid k).options
change_option-AreInRange p oid k lt h j jt ranged =
    rw (change_option-options p oid j k) (split (is_protected oid) (ℕ_discrete j oid))
  where
    split :
        (b : Bool)
        → Dec (j ≡ oid)
        → (if b
            then k.options j
            else if j == oid
            then (option_value oid (find_nonempty (key_option oid) p) (k.options oid)).0
            else k.options j)
          ≤ op_max j
    split true d = h j jt ranged
    split false (yes e) = rw e (
        ground (
          arith,
          option_value_bound oid (find_nonempty (key_option oid) p) (k.options oid)
              (h oid lt (subst (λ x. 0 < op_max x) e ranged)),
        ))
    split false (no ne) = ground (arith, h j jt ranged)

change_all_options-AreInRange :
    (p : List ℕ) (n : ℕ) (k : Changes)
    → n ≤ num_options
    → AreInRange k.options
    → AreInRange (replay n (change_option p) k).options
change_all_options-AreInRange p zero k le h = h
change_all_options-AreInRange p (suc n) k le h =
    change_option-AreInRange p n (replay n (change_option p) k) (omega arith)
      (change_all_options-AreInRange p n k (omega arith) h)

change_option-protected :
    (p : List ℕ) (n j : ℕ) (k : Changes)
    → is_protected j ≡ true
    → (change_option p n k).options j ≡ k.options j
change_option-protected p n j k h =
    change_option-options p n j k ∙ split (Bool-cases (is_protected n)) (ℕ_discrete j n)
  where
    value : ℕ
    value = (option_value n (find_nonempty (key_option n) p) (k.options n)).0

    split :
        (is_protected n ≡ true) ⊎ (is_protected n ≡ false)
        → Dec (j ≡ n)
        → (if is_protected n then k.options j else if j == n then value else k.options j)
          ≡ k.options j
    split (inl e) d = rw e
    split (inr e) (yes same) = absurd (clash (ap is_protected same))
      where
        clash : is_protected j ≡ is_protected n → ⊥
        clash eq = cc
    split (inr e) (no ne) = rw e (ground arith)

change_all_options-protected :
    (p : List ℕ) (n j : ℕ) (k : Changes)
    → is_protected j ≡ true
    → (replay n (change_option p) k).options j ≡ k.options j
change_all_options-protected p zero j k h = refl
change_all_options-protected p (suc n) j k h =
    change_option-protected p n j (replay n (change_option p) k) h
    ∙ change_all_options-protected p n j k h

-- The loop over the options that a request gives keeps every option that has a range within it, and
-- leaves the options that requests may not change as they are.
pub change_all_options_lem :
    (p : List ℕ) (c : Controller)
    → AreInRange c.options
    → AreInRange (change_all_options p c).options
      × ((j : ℕ) → is_protected j ≡ true → (change_all_options p c).options j ≡ c.options j)
unfolding change_all_options
change_all_options_lem p c h = (
  change_all_options-AreInRange p num_options _ (omega arith) h,
  λ j e. change_all_options-protected p num_options j _ e,
)
