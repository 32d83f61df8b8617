-- ===== src/Auth/Text/Numerals.antt =====
-- Reading back a numeral that str(n) wrote.
use distributed_asynchronous.Prelude.{
  ℕ, zero, suc, ◌+◌, ◌/◌, ◌<◌, ◌≤◌, ◌≡◌, refl, ◌∙◌, ap, arith, Bool, true, false, some, List, [],
  ◌∷◌, String, codes, All, show, digit, show_digits,
}
use distributed_asynchronous.Models.Json.{pos}
use distributed_asynchronous.Auth.Text.{digits_from, parse_int, lstrip, rstrip, signed}
use mathlib.Core.Option.{map as option_map}

digits-show_digits :
    (fuel n : ℕ) (after : Bool) (tail : String)
    → n < fuel
    → digits_from 0 after (codes (show_digits fuel n tail)) ≡ digits_from n true (codes tail)
unfolding show_digits
digits-show_digits zero n after tail h = absurd (omega arith)
digits-show_digits (suc fuel) n after tail h =
    ground (arith, digits-show_digits fuel (n / 10) after (String.◌∷◌ (digit n) tail))

abbrev IsDigit : ℕ → Type 0
IsDigit c = (b'0' ≤ c) × (c ≤ b'9')

show_digits-IsDigit :
    (fuel n : ℕ) (tail : String)
    → All IsDigit (codes tail)
    → All IsDigit (codes (show_digits fuel n tail))
unfolding show_digits
show_digits-IsDigit zero n tail h = h
show_digits-IsDigit (suc fuel) n tail h =
    ground (arith, show_digits-IsDigit fuel (n / 10) (String.◌∷◌ (digit n) tail))

lstrip_digits : (text : List ℕ) → All IsDigit text → lstrip text ≡ text
lstrip_digits [] h = refl
lstrip_digits (c ∷ cs) h = ground arith

rstrip_digits : (text : List ℕ) → All IsDigit text → rstrip text ≡ text
rstrip_digits [] h = refl
rstrip_digits (c ∷ []) h = ground arith
rstrip_digits (c ∷ d ∷ ds) h = rw (rstrip_digits (d ∷ ds) h.1) refl

signed_digits :
    (text : List ℕ) → All IsDigit text → signed text ≡ option_map pos (digits_from 0 false text)
signed_digits [] h = refl
signed_digits (c ∷ cs) h = ground arith

-- int(str(n)) is n.
pub parse_int-show : (n : ℕ) → parse_int (codes (show n)) ≡ some (pos n)
unfolding parse_int show
parse_int-show n =
    let digits : All IsDigit (codes (show n)) = show_digits-IsDigit (n + 1) n "" tt in
    rw (lstrip_digits (codes (show n)) digits, rstrip_digits (codes (show n)) digits)
      (signed_digits (codes (show n)) digits
        ∙ ap (option_map pos) (digits-show_digits (n + 1) n false "" (omega arith)))
