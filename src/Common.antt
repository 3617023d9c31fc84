-- ===== src/Common.antt =====
-- The names that the other modules share: the libraries', passed on, and those of the children.
mod Tests
mod Lists
mod Arrays
mod Bits
pub mod Int
pub use Tests.*
pub use Lists.*
unfoldable pub use Arrays.{update}
pub use Arrays.{update-eq, update_self, update_ne, count, replay, replay_inv}
unfoldable pub use Bits.{mask, bit_test, bit_set, bit_clear}
pub use Bits.{
  bit_test-set, bit_test-clear, bit_set-lt, bit_clear-lt, station_split, bit_test-zero,
  bit_test_mod, bit_test-digit,
}
pub use Prim.Native.Nat.{
  ℕ, zero, suc, ◌+◌, ◌-◌, ◌*◌, ◌/◌, ◌%◌, ◌^◌, ◌≤◌, ◌<◌, min, max, bit_and, bit_or,
}
pub use mathlib.Core.Path.{◌≡◌, refl, sym, ap, ◌∙◌, subst, fun_ext}
pub use mathlib.Core.Logic.{◌≢◌, ◌↔◌, ◌⊎◌, inl, inr}
pub use mathlib.Core.Bool.{Bool, true, false, not, ◌&&◌, ◌||◌}
pub use mathlib.Core.Option.{Option, none, some}
pub use mathlib.Core.List.{List, [], ◌∷◌, ◌++◌, map}
pub use native.Mathlib.Omega.{arith}
unfoldable pub use native.Mathlib.Decide.{dec_lt, ℕ_discrete}
