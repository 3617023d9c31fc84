-- ===== src/Special/Remote.antt =====
-- The request that a remote station is sent (`switch_remotestation` of firmware/OpenSprinkler.cpp),
-- as the other controller reads it (`server_change_manual` of firmware/server.cpp).
use indigo_open_sprinkler_pl.Common.{
  ℕ, zero, suc, ◌+◌, ◌/◌, ◌%◌, ◌≤◌, ◌<◌, ◌≡◌, refl, ◌∙◌, ap, arith, Bool, if◌then◌else◌, List, [],
  ◌∷◌, ◌++◌, some, none, length, dec_lt, lt→ltb, ltb-false,
}
use mathlib.Core.List.{append_assoc}
use indigo_open_sprinkler_pl.Common.Int.{pos}
use indigo_open_sprinkler_pl.Http.{
  find_value, copy_value, find_key_val, find_nonempty, tmp_buffer_size, atol, hex2ulong,
}
use indigo_open_sprinkler_pl.Controller.{Controller}
use indigo_open_sprinkler_pl.Server.{int_of, key_sid, key_en, key_t, key_pw}
use indigo_open_sprinkler_pl.Json.{codes, emit_p, print_argument, digits, ultoa, print_int}
use indigo_open_sprinkler_pl.Json.Numbers.{ultoa-all_digits, length-ultoa, atol-ultoa}
use indigo_open_sprinkler_pl.Special.{RemoteStationData, remote_timer, remote_query}
use indigo_open_sprinkler_pl.Special.Scan.{
  IsHash, digits-IsHash, find_value-hash, find_value-hash_one, find_value-skip, find_value-hash_en,
  copy_value-space, copy_value-next,
}

-- What stands behind the four values.
abbrev tail : List ℕ
tail = codes " HTTP/1.0\r\nHOST: *\r\n\r\n"

abbrev from_t : ℕ → List ℕ
from_t t = 38 ∷ 116 ∷ 61 ∷ (ultoa t ++ tail)

abbrev from_en : ℕ → ℕ → List ℕ
from_en e t = 38 ∷ 101 ∷ 110 ∷ 61 ∷ (ultoa e ++ from_t t)

abbrev from_sid : ℕ → ℕ → ℕ → List ℕ
from_sid s e t = 38 ∷ 115 ∷ 105 ∷ 100 ∷ 61 ∷ (ultoa s ++ from_en e t)

-- The request by the password, the station, whether it is turned on, and the seconds.
abbrev pub query : List ℕ → ℕ → ℕ → ℕ → List ℕ
query pw s e t = 112 ∷ 119 ∷ 61 ∷ (pw ++ from_sid s e t)

pub remote_query-query :
    (station : RemoteStationData) (turnon : Bool) (c : Controller)
    → remote_query station turnon c
      ≡ query c.texts.password (hex2ulong station.sid) (if turnon then 1 else 0) (remote_timer c)
unfolding remote_query emit_p print_argument print_int
remote_query-query station turnon c = simp (append_assoc)

-- A text that is not empty.
abbrev pub IsNonempty : List ℕ → Type 0
IsNonempty xs = (c : ℕ) × (cs : List ℕ) × (xs ≡ c ∷ cs)

digits-IsNonempty : (f n x : ℕ) (xs : List ℕ) → IsNonempty (digits f n (x ∷ xs))
unfolding digits
digits-IsNonempty zero n x xs = (x, xs, refl)
digits-IsNonempty (suc f) n x xs = elim (dec_lt n 10) [
  | yes p ↦ rw (digits, lt→ltb n 10 p) (48 + n, x ∷ xs, refl)
  | no p ↦
      rw (digits, ltb-false n 10 (omega arith))
        (digits-IsNonempty f (n / 10) (48 + n % 10) (x ∷ xs))
]

ultoa-IsNonempty : (n : ℕ) → IsNonempty (ultoa n)
unfolding ultoa digits
ultoa-IsNonempty n = elim (dec_lt n 10) [
  | yes p ↦ rw (digits, lt→ltb n 10 p) (48 + n, [], refl)
  | no p ↦ rw (digits, ltb-false n 10 (omega arith)) (digits-IsNonempty n (n / 10) (48 + n % 10) [])
]

pub find_nonempty-found :
    (key p v : List ℕ)
    → find_key_val tmp_buffer_size key p ≡ some v
    → IsNonempty v
    → find_nonempty key p ≡ some v
unfolding find_nonempty
find_nonempty-found key p v h (c, cs, e) = rw (find_nonempty, h, e) refl

ultoa-IsHash : (n : ℕ) → IsHash (ultoa n)
ultoa-IsHash n = digits-IsHash (ultoa n) (ultoa-all_digits n)

int_of-found :
    (key p : List ℕ) (n : ℕ)
    → find_key_val tmp_buffer_size key p ≡ some (ultoa n)
    → int_of key p ≡ some (pos n)
int_of-found key p n h =
    ap (λ o. elim o [ none ↦ none | some v ↦ some (atol v) ])
      (find_nonempty-found key p (ultoa n) h (ultoa-IsNonempty n))
    ∙ ap some (atol-ultoa n)

found-by :
    (key p rest v : List ℕ)
    → find_value key key p ≡ some rest
    → copy_value 254 rest ≡ v
    → find_key_val tmp_buffer_size key p ≡ some v
unfolding find_key_val
found-by key p rest v h e = rw (find_key_val, h, e) refl

pub query-sid :
    (pw : List ℕ) (s e t : ℕ)
    → IsHash pw
    → s < 65536
    → int_of key_sid (query pw s e t) ≡ some (pos s)
unfolding find_value
query-sid pw s e t p h = int_of-found key_sid (query pw s e t) s (
    found-by key_sid (query pw s e t) (ultoa s ++ from_en e t) (ultoa s)
      (find_value-hash 115 105 (100 ∷ []) pw (from_sid s e t) (omega arith) p)
      (copy_value-next 254 (ultoa s) _ (omega (arith, length-ultoa s h)) (ultoa-IsHash s)))

pub query-en :
    (pw : List ℕ) (s e t : ℕ)
    → IsHash pw
    → e < 65536
    → int_of key_en (query pw s e t) ≡ some (pos e)
unfolding find_value
query-en pw s e t p h = int_of-found key_en (query pw s e t) e (
    found-by key_en (query pw s e t) (ultoa e ++ from_t t) (ultoa e)
      ((find_value-hash_en pw 115 (105 ∷ 100 ∷ 61 ∷ (ultoa s ++ from_en e t)) p).0
        ∙ (find_value-hash_en (ultoa s) 101 (110 ∷ 61 ∷ (ultoa e ++ from_t t)) (ultoa-IsHash s)).0)
      (copy_value-next 254 (ultoa e) _ (omega (arith, length-ultoa e h)) (ultoa-IsHash e)))

pub query-t :
    (pw : List ℕ) (s e t : ℕ) → IsHash pw → t < 65536 → int_of key_t (query pw s e t) ≡ some (pos t)
unfolding find_value
query-t pw s e t p h = int_of-found key_t (query pw s e t) t (
    found-by key_t (query pw s e t) (ultoa t ++ tail) (ultoa t)
      (find_value-skip 116 61 38 pw (115 ∷ 105 ∷ 100 ∷ 61 ∷ (ultoa s ++ from_en e t)) refl
          (ground arith)
        ∙ find_value-hash_one 116 38 pw (115 ∷ 105 ∷ 100 ∷ 61 ∷ (ultoa s ++ from_en e t))
            (omega arith) p
        ∙ find_value-skip 116 61 38 (ultoa s) (101 ∷ 110 ∷ 61 ∷ (ultoa e ++ from_t t)) refl
            (ground arith)
        ∙ find_value-hash_one 116 38 (ultoa s) (101 ∷ 110 ∷ 61 ∷ (ultoa e ++ from_t t))
            (omega arith) (ultoa-IsHash s)
        ∙ find_value-skip 116 61 38 (ultoa e) (116 ∷ 61 ∷ (ultoa t ++ tail)) refl (ground arith)
        ∙ find_value-hash_one 116 38 (ultoa e) (116 ∷ 61 ∷ (ultoa t ++ tail)) (omega arith)
            (ultoa-IsHash e))
      (copy_value-space 254 (ultoa t) _ (omega (arith, length-ultoa t h)) (ultoa-IsHash t)))

pub query-pw :
    (pw : List ℕ) (s e t : ℕ)
    → IsHash pw
    → length pw ≤ 36
    → IsNonempty pw
    → find_nonempty key_pw (query pw s e t) ≡ some pw
unfolding find_value
query-pw pw s e t p h full =
    find_nonempty-found key_pw (query pw s e t) pw
      (found-by key_pw (query pw s e t) (pw ++ from_sid s e t) pw refl
        (copy_value-next 254 pw (115 ∷ 105 ∷ 100 ∷ 61 ∷ (ultoa s ++ from_en e t)) (omega arith) p))
      full
