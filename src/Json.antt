-- ===== src/Json.antt =====
-- The texts that firmware/server.cpp prints (`server_json_…`). A page is the list of the bytes that
-- are written to the client, after the header of the answer; where the text is cut into packets is
-- left out.
pub mod Numbers
pub mod Programs
pub mod Reading
pub mod Roundtrip
pub mod Pages
pub mod Options
pub mod Joined
pub mod Log
pub mod Records
pub mod LogPage
pub mod LogRange
pub mod Remaining
mod Tests
use Prim.Native.Char.{code}
use Prim.Native.String
use Prim.Native.String.{String}
use indigo_open_sprinkler_pl.Common.{
  ℕ, zero, suc, ◌+◌, ◌/◌, ◌%◌, Bool, true, false, ltb, ◌==◌, ◌||◌, if◌then◌else◌, List, [], ◌∷◌,
  ◌++◌,
}
use indigo_open_sprinkler_pl.Common.Int.{ℤ, pos, negsuc}

-- The bytes of a literal.
abbrev pub codes : String → List ℕ
codes String.[] = []
codes (String.◌∷◌ c s) = code c ∷ codes s

-- The decimal digits of a number in front of a text, with fuel for the divisions by ten.
unfoldable pub digits : ℕ → ℕ → List ℕ → List ℕ
digits zero n rest = rest
digits (suc fuel) n rest =
    let more = digits fuel (n / 10) ((48 + n % 10) ∷ rest) in
    if ltb n 10 then (48 + n) ∷ rest else more

-- `ultoa` to base 10; there are at most as many divisions as the number says.
unfoldable pub ultoa : ℕ → List ℕ
ultoa n = digits (suc n) n []

-- `itoa` to base 10.
unfoldable pub print_int : ℤ → List ℕ
print_int (pos n) = ultoa n
print_int (negsuc n) = 45 ∷ ultoa (suc n)

-- An argument of `emit_p`: a number for $D, one for $L, or a text for $S, $F and $E.
pub data Argument : Type 0 where
  int : ℤ → Argument
  ulong : ℕ → Argument
  text : List ℕ → Argument

unfoldable pub print_argument : Argument → List ℕ
print_argument (int v) = print_int v
print_argument (ulong n) = ultoa n
print_argument (text s) = s

-- D, L, S, F and E take an argument; after '$' any other character stands for itself.
abbrev pub takes_argument : ℕ → Bool
takes_argument c = (c == 68) || ((c == 76) || ((c == 83) || ((c == 70) || (c == 69))))

-- `BufferFiller::emit_p`: the format with its arguments put in. A missing argument prints nothing.
unfoldable pub emit_p : List ℕ → List Argument → List ℕ
emit_p [] arguments = []
emit_p (c ∷ []) arguments = if c == 36 then [] else c ∷ []
emit_p (c ∷ d ∷ fmt) arguments = elim (c == 36) [
  | false ↦ c ∷ emit_p (d ∷ fmt) arguments
  | true ↦ elim (takes_argument d) [
    | false ↦ d ∷ emit_p fmt arguments
    | true ↦ elim arguments [ [] ↦ emit_p fmt [] | x ∷ xs ↦ print_argument x ++ emit_p fmt xs ]
  ]
]
