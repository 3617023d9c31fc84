-- ===== src/Common/Arrays.antt =====
-- Arrays as functions from indices, and the sections of them that loops read.
use Prim.Native.Nat.{ℕ, zero, suc, ◌+◌, ◌<◌}
use mathlib.Core.Path.{◌≡◌, refl}
use mathlib.Core.Logic.{◌≢◌}
use mathlib.Core.Bool.{Bool}
use native.Mathlib.Omega.{arith}
use indigo_open_sprinkler_pl.Common.Tests.{if◌then◌else◌, ◌==◌}

module _ {ℓ} {A : Type ℓ} where
  -- `a[i] = v`
  unfoldable pub update : (ℕ → A) → ℕ → A → ℕ → A
  update a i v j = if j == i then v else a j

  pub update-eq : (a : ℕ → A) (i : ℕ) (v : A) (j : ℕ) → update a i v j ≡ (if j == i then v else a j)
  unfolding update
  update-eq a i v j = refl

  pub update_self : (a : ℕ → A) (i : ℕ) (v : A) → update a i v i ≡ v
  unfolding update
  update_self a i v = ground arith

  pub update_ne : (a : ℕ → A) (i : ℕ) (v : A) (j : ℕ) → j ≢ i → update a i v j ≡ a j
  unfolding update
  update_ne a i v j h = ground arith

-- How many of the first n indices pass a test.
abbrev pub count : ℕ → (ℕ → Bool) → ℕ
count zero p = 0
count (suc n) p = (if p n then 1 else 0) + count n p

-- `for (i = 0; i < n; i++) s = body(i, s)`.
abbrev pub replay {ℓ} : {S : Type ℓ} → ℕ → (ℕ → S → S) → S → S
replay zero body s = s
replay (suc n) body s = body n (replay n body s)

-- An invariant of the loop's body holds at its end.
pub replay_inv {ℓ κ} :
    {S : Type ℓ} (P : S → Type κ) (n : ℕ) (body : ℕ → S → S) (s : S)
    → ((i : ℕ) → i < n → (t : S) → P t → P (body i t))
    → P s
    → P (replay n body s)
replay_inv P zero body s step h = h
replay_inv P (suc n) body s step h =
    step n (omega arith) (replay n body s) (replay_inv P n body s (λ i lt. step i (omega arith)) h)
