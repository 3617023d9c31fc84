-- ===== src/Json/Joined.antt =====
-- The page of options is a list of the visible ones (`server_json_options_main` of
-- firmware/server.cpp).
use mathlib.Core.List.{append_assoc, append-nil}
use indigo_open_sprinkler_pl.Common.{
  ℕ, zero, suc, ◌+◌, ◌-◌, ◌≡◌, refl, sym, ◌∙◌, ap, subst, arith, inl, inr, Bool, true, false, ==_ne,
  ==_refl, if◌then◌else◌, List, [], ◌∷◌, ◌++◌, Bool-cases,
}
use indigo_open_sprinkler_pl.Common.Int.{ℤ}
use indigo_open_sprinkler_pl.Controller.{Controller}
use indigo_open_sprinkler_pl.Controller.OptionIndex.{num_options}
use indigo_open_sprinkler_pl.Controller.Stations.{max_ext_boards}
use indigo_open_sprinkler_pl.Json.{codes, emit_p, int}
use indigo_open_sprinkler_pl.Json.Programs.{each}
use indigo_open_sprinkler_pl.Json.Pages.{comma_unless_last, number}
use indigo_open_sprinkler_pl.Json.Options.{is_hidden, option_entry, server_json_options_main}

-- Entries with commas between them.
abbrev pub join : List (List ℕ) → List ℕ
join [] = []
join (x ∷ []) = x
join (x ∷ y ∷ ys) = x ++ (44 ∷ join (y ∷ ys))

-- The entries from i on, n of them, that are not hidden.
abbrev pub visible : (ℕ → Bool) → (ℕ → List ℕ) → ℕ → ℕ → List (List ℕ)
visible hidden entry i zero = []
visible hidden entry i (suc n) =
    let more = visible hidden entry (suc i) n in if hidden i then more else entry i ∷ more

visible-cons :
    (hidden : ℕ → Bool) (entry : ℕ → List ℕ) (n i : ℕ)
    → hidden (i + n) ≡ false
    → (x : List ℕ) × (xs : List (List ℕ)) × (visible hidden entry i (suc n) ≡ x ∷ xs)
visible-cons hidden entry zero i h =
    let shown : hidden i ≡ false = subst (λ j. hidden j ≡ false) (omega arith) h in
    (entry i, [], rw shown)
visible-cons hidden entry (suc n) i h = elim (Bool-cases (hidden i)) [
  | inl x ↦
      rw x (visible-cons hidden entry n (suc i) (subst (λ j. hidden j ≡ false) (omega arith) h))
  | inr x ↦ (entry i, visible hidden entry (suc i) (suc n), rw x)
]

-- A loop that prints a comma behind every entry but that of the last index joins the entries, if the
-- last one is not hidden.
each-join :
    (hidden : ℕ → Bool) (entry : ℕ → List ℕ) (n i k : ℕ)
    → i + suc n ≡ k
    → hidden (k - 1) ≡ false
    → each (λ j. if hidden j then [] else entry j ++ comma_unless_last j k) i (suc n)
      ≡ join (visible hidden entry i (suc n))
each-join hidden entry zero i k e h =
    let last : k - 1 ≡ i = omega (arith, e) in
    let shown : hidden i ≡ false = subst (λ j. hidden j ≡ false) last h in
    rw (shown, last, ==_refl i) (append-nil _ ∙ append-nil _)
each-join hidden entry (suc n) i k e h =
    let rest = each-join hidden entry n (suc i) k (omega (arith, e)) h in
    elim (Bool-cases (hidden i)) [
      | inl x ↦ rw (x, rest)
      | inr x ↦
          let more =
            visible-cons hidden entry n (suc i)
              (subst (λ j. hidden j ≡ false) (omega (arith, e)) h) in
          rw (x, ==_ne i (k - 1) (λ f. absurd (omega (arith, e, f))))
            (append_assoc (entry i) (44 ∷ []) _
              ∙ ap (λ xs. entry i ++ (44 ∷ xs)) (rest ∙ ap join more.2)
              ∙ ap (λ xs. join (entry i ∷ xs)) (sym more.2))
    ]

-- The page of options is the entries of all options that are not hidden, in order, with a comma
-- between each two of them and none behind the last, and then the three numbers about the hardware.
pub server_json_options_main-join :
    (has_hwmac : Bool) (detected : ℤ) (hw_type : ℕ) (c : Controller)
    → server_json_options_main has_hwmac detected hw_type c
      ≡ join (visible (is_hidden has_hwmac) (λ oid. option_entry oid (c.options oid)) 0 num_options)
        ++ emit_p
            (codes ",\"dexp\":$D,\"mexp\":$D,\"hwt\":$D}")
            (int detected ∷ number max_ext_boards ∷ number hw_type ∷ [])
unfolding server_json_options_main is_hidden
server_json_options_main-join has_hwmac detected hw_type c =
    ap
      (λ xs.
        xs
        ++ emit_p (codes ",\"dexp\":$D,\"mexp\":$D,\"hwt\":$D}")
            (int detected ∷ number max_ext_boards ∷ number hw_type ∷ []))
      (each-join (is_hidden has_hwmac) (λ oid. option_entry oid (c.options oid)) 50 0 num_options
        refl (last_shown has_hwmac))
  where
    last_shown : (b : Bool) → is_hidden b 50 ≡ false
    last_shown true = ground arith
    last_shown false = ground arith
