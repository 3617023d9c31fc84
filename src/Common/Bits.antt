-- ===== src/Common/Bits.antt =====
-- Bits of a byte: `b & mask`, `b | mask` and `b & ~mask` for `mask = 1 << (s & 7)`, with their laws
-- by a table over all bytes and masks.
use Prim.Native.Nat.{ℕ, zero, suc, ◌-◌, ◌/◌, ◌%◌, ◌^◌, ◌<◌, bit_and, bit_or}
use mathlib.Core.Path.{◌≡◌, refl, ap, sym, ◌∙◌}
use mathlib.Core.Bool.{Bool, true, false, not, ◌&&◌}
use native.Mathlib.Omega.{arith}
use indigo_open_sprinkler_pl.Common.Tests.{ltb, ◌==◌, if◌then◌else◌, ltb→lt}

-- `(byte)1 << (sid & 0x07)`
unfoldable pub mask : ℕ → ℕ
mask sid = 2 ^ (sid % 8)

-- `b & mask` as a truth value
unfoldable pub bit_test : ℕ → ℕ → Bool
unfolding mask
bit_test b sid = not (bit_and b (mask sid) == 0)

-- `b | mask`
unfoldable pub bit_set : ℕ → ℕ → ℕ
unfolding mask
bit_set b sid = bit_or b (mask sid)

-- `b & ~mask`
unfoldable pub bit_clear : ℕ → ℕ → ℕ
unfolding mask
bit_clear b sid = bit_and b (255 - mask sid)

-- The table of a test has only true entries at the first n places.
is_table : (ℕ → Bool) → ℕ → Bool
is_table test zero = true
is_table test (suc n) = is_table test n && test n

table_entry : (test : ℕ → Bool) (n : ℕ) → is_table test n ≡ true → (i : ℕ) → i < n → test i ≡ true
unfolding is_table
table_entry test zero full i lt = absurd (omega arith)
table_entry test (suc n) full i lt = ground (arith, table_entry test n (ground arith) i)

abbrev same : Bool → Bool → Bool
same true b = b
same false b = not b

same-eq : (a b : Bool) → same a b ≡ true → a ≡ b
same-eq true b h = ground arith
same-eq false b h = ground arith

-- The laws at one byte and two positions.
abbrev row : ℕ → ℕ → ℕ → Bool
row b s t =
    same (bit_test (bit_set b s) t) (if t == s then true else bit_test b t)
    && (same (bit_test (bit_clear b s) t) (if t == s then false else bit_test b t)
        && (ltb (bit_set b s) 256 && ltb (bit_clear b s) 256))

table : is_table (λ b. is_table (λ s. is_table (λ t. row b s t) 8) 8) 256 ≡ true
unfolding is_table bit_test bit_set bit_clear
table = refl

row-true : (b s t : ℕ) → b < 256 → s < 8 → t < 8 → row b s t ≡ true
row-true b s t hb hs ht = table_entry _ 8 (table_entry _ 8 (table_entry _ 256 table b hb) s hs) t ht

and_left : (a b : Bool) → (a && b) ≡ true → a ≡ true
and_left a b h = ground arith

and_right : (a b : Bool) → (a && b) ≡ true → b ≡ true
and_right a b h = ground arith

pub bit_test_mod : (b s : ℕ) → bit_test b (s % 8) ≡ bit_test b s
unfolding bit_test
bit_test_mod b s = ap (λ k. not (bit_and b (2 ^ k) == 0)) (omega arith)

bit_set_mod : (b s : ℕ) → bit_set b (s % 8) ≡ bit_set b s
unfolding bit_set
bit_set_mod b s = ap (λ k. bit_or b (2 ^ k)) (omega arith)

bit_clear_mod : (b s : ℕ) → bit_clear b (s % 8) ≡ bit_clear b s
unfolding bit_clear
bit_clear_mod b s = ap (λ k. bit_and b (255 - 2 ^ k)) (omega arith)

ruleset mods = (bit_test_mod, bit_set_mod, bit_clear_mod)

module _ (b s t : ℕ) (hb : b < 256) where
  whole : row b (s % 8) (t % 8) ≡ true
  whole = row-true b (s % 8) (t % 8) hb (omega arith) (omega arith)

  row_parts :
      (bit_test (bit_set b s) t ≡ (if (t % 8) == (s % 8) then true else bit_test b t))
      × (bit_test (bit_clear b s) t ≡ (if (t % 8) == (s % 8) then false else bit_test b t))
      × (ltb (bit_set b s) 256 ≡ true)
      × (ltb (bit_clear b s) 256 ≡ true)
  row_parts =
      let w = simp mods at whole in
      let r = and_right _ _ w in
      let q = and_right _ _ r in
      (same-eq _ _ (and_left _ _ w), same-eq _ _ (and_left _ _ r), and_left _ _ q, and_right _ _ q)

  pub bit_test-set : bit_test (bit_set b s) t ≡ (if (t % 8) == (s % 8) then true else bit_test b t)
  bit_test-set = row_parts.0

  pub bit_test-clear :
      bit_test (bit_clear b s) t ≡ (if (t % 8) == (s % 8) then false else bit_test b t)
  bit_test-clear = row_parts.1

pub bit_set-lt : (b s : ℕ) → b < 256 → bit_set b s < 256
bit_set-lt b s hb = ltb→lt _ _ (row_parts b s 0 hb).2

pub bit_clear-lt : (b s : ℕ) → b < 256 → bit_clear b s < 256
bit_clear-lt b s hb = ltb→lt _ _ (row_parts b s 0 hb).3

zero_table : is_table (λ s. not (bit_test 0 s)) 8 ≡ true
unfolding is_table bit_test
zero_table = refl

pub bit_test-zero : (s : ℕ) → bit_test 0 s ≡ false
bit_test-zero s =
    let e = table_entry (λ t. not (bit_test 0 t)) 8 zero_table (s % 8) (omega arith) in
    sym (bit_test_mod 0 s) ∙ sym (same-eq false _ e)

-- A station's index is its board and its place on the board.
pub station_split : (i j : ℕ) → i / 8 ≡ j / 8 → i % 8 ≡ j % 8 → i ≡ j
station_split i j h k = omega arith

digit_table :
    is_table (λ b. is_table (λ s. same (bit_test b s) ((b / 2 ^ s) % 2 == 1)) 8) 256 ≡ true
unfolding is_table bit_test
digit_table = refl

-- A bit of a byte as a binary digit.
pub bit_test-digit : (b s : ℕ) → b < 256 → s < 8 → bit_test b s ≡ ((b / 2 ^ s) % 2 == 1)
bit_test-digit b s hb hs = same-eq _ _ (table_entry _ 8 (table_entry _ 256 digit_table b hb) s hs)
