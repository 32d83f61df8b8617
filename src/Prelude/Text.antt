-- ===== src/Prelude/Text.antt =====
-- Text: the code points of a string, decimal numerals, and the joins of Python's f-strings.
use Prim.Native.Nat.{ℕ, zero, suc, ◌+◌, ◌/◌, ◌%◌}
use Prim.Native.Char.{Char, char, code, IsScalar}
use native.Mathlib.Omega.{arith}
use Prim.Native.String.{String, ◌++◌ as str_append}
use mathlib.Core.Path.{◌≡◌, refl}
use mathlib.Core.Bool.{◌&&◌}
use mathlib.Core.List.{List, [], ◌∷◌}
use distributed_asynchronous.Prelude.Tests.{ltb, leb, if◌then◌else◌}

abbrev pub codes : String → List ℕ
codes String.[] = []
codes (String.◌∷◌ c s) = code c ∷ codes s

pub digit-IsScalar : (n : ℕ) → IsScalar (n % 10 + b'0')
digit-IsScalar n = ground arith

-- The last decimal digit of a number.
abbrev pub digit : ℕ → Char
digit n = char (n % 10 + b'0') (digit-IsScalar n)

unfoldable pub show_digits : ℕ → ℕ → String → String
show_digits zero n tail = tail
show_digits (suc fuel) n tail =
    let text = String.◌∷◌ (digit n) tail in
    let rest = show_digits fuel (n / 10) text in if ltb n 10 then text else rest

-- `str(n)` for a natural number: it has at most `n + 1` digits.
unfoldable pub show : ℕ → String
unfolding show_digits
show n = show_digits (n + 1) n ""

-- c.lower() for an ASCII letter
abbrev pub lower_code : ℕ → ℕ
lower_code c = if leb b'A' c && leb c b'Z' then c + 32 else c

-- An f-string: its pieces, joined.
abbrev pub joined : List String → String
joined [] = ""
joined (s ∷ rest) = str_append s (joined rest)

show_test : joined ("run " ∷ show 1205 ∷ []) ≡ "run 1205"
unfolding show
show_test = refl
