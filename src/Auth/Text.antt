-- ===== src/Auth/Text.antt =====
-- What backend/common/auth.py uses of Python's strings, as code points: isascii, ==, split, int.
pub mod Numerals
use distributed_asynchronous.Prelude.{
  ℕ, zero, suc, ◌+◌, ◌-◌, ◌*◌, ◌≡◌, refl, arith, Bool, true, false, not, ◌&&◌, ◌||◌, Option, none,
  some, List, [], ◌∷◌, ◌++◌, ltb, leb, ◌==◌, if◌then◌else◌, map,
}
use distributed_asynchronous.Models.Json.{ℤ, pos, negsuc}
use mathlib.Core.Option.{map as option_map}

abbrev pub is_ascii : List ℕ → Bool
is_ascii [] = true
is_ascii (c ∷ cs) = ltb c 128 && is_ascii cs

-- text == other
abbrev pub equal : List ℕ → List ℕ → Bool
equal [] [] = true
equal [] (y ∷ ys) = false
equal (x ∷ xs) [] = false
equal (x ∷ xs) (y ∷ ys) = x == y && equal xs ys

pub equal_refl : (xs : List ℕ) → equal xs xs ≡ true
equal_refl [] = refl
equal_refl (x ∷ xs) = ground (arith, equal_refl xs)

pub equal_sound : (xs ys : List ℕ) → equal xs ys ≡ true → xs ≡ ys
equal_sound [] [] h = refl
equal_sound [] (y ∷ ys) h = ground arith
equal_sound (x ∷ xs) [] h = ground arith
equal_sound (x ∷ xs) (y ∷ ys) h = ground (arith, equal_sound xs ys)

abbrev before_first : ℕ → Option (List ℕ × List ℕ) → Option (List ℕ × List ℕ)
before_first c none = none
before_first c (some (head, tail)) = some (c ∷ head, tail)

-- head, tail = text.split(sep, 1), or `none` where the unpacking raises ValueError.
abbrev pub split_once : ℕ → List ℕ → Option (List ℕ × List ℕ)
split_once sep [] = none
split_once sep (c ∷ cs) =
    let rest = before_first c (split_once sep cs) in if c == sep then some ([], cs) else rest

abbrev pub lacks : ℕ → List ℕ → Bool
lacks sep [] = true
lacks sep (c ∷ cs) = not (c == sep) && lacks sep cs

-- Splitting finds the first separator.
pub split_once-append :
    (sep : ℕ) (head tail : List ℕ)
    → lacks sep head ≡ true
    → split_once sep (head ++ sep ∷ tail) ≡ some (head, tail)
split_once-append sep [] tail h = ground arith
split_once-append sep (c ∷ head) tail h = ground (arith, split_once-append sep head tail)

pub split_once_sound :
    (sep : ℕ) (text head tail : List ℕ)
    → split_once sep text ≡ some (head, tail)
    → text ≡ head ++ sep ∷ tail
split_once_sound sep [] head tail h = ground arith
split_once_sound sep (c ∷ text) head tail h =
    go (split_once sep text) refl (λ front back. split_once_sound sep text front back)
  where
    go :
        (rest : Option (List ℕ × List ℕ))
        → split_once sep text ≡ rest
        → ((front back : List ℕ)
            → split_once sep text ≡ some (front, back)
            → text ≡ front ++ sep ∷ back)
        → c ∷ text ≡ head ++ sep ∷ tail
    go none e ih = ground (arith, e)
    go (some (front, back)) e ih = ground (arith, e, ih front back e)

-- The ASCII part of str.isspace.
abbrev is_space : ℕ → Bool
is_space c = leb 9 c && leb c 13 || leb 28 c && leb c 32

abbrev pub lstrip : List ℕ → List ℕ
lstrip [] = []
lstrip (c ∷ cs) = let rest = lstrip cs in if is_space c then rest else c ∷ cs

abbrev pub nonspace : ℕ → List ℕ → List ℕ
nonspace c [] = if is_space c then [] else c ∷ []
nonspace c (d ∷ ds) = c ∷ d ∷ ds

abbrev pub rstrip : List ℕ → List ℕ
rstrip [] = []
rstrip (c ∷ cs) = nonspace c (rstrip cs)

-- Digits, with single underscores between them; the flag tells whether a digit stands before.
abbrev pub digits_from : ℕ → Bool → List ℕ → Option ℕ
digits_from acc after_digit [] = if after_digit then some acc else none
digits_from acc after_digit (c ∷ cs) =
    let more = digits_from (acc * 10 + (c - b'0')) true cs in
    let skipped = digits_from acc false cs in
    if leb b'0' c && leb c b'9' then more else if c == b'_' && after_digit then skipped else none

abbrev negated : ℕ → ℤ
negated zero = pos 0
negated (suc n) = negsuc n

abbrev pub signed : List ℕ → Option ℤ
signed [] = none
signed (c ∷ cs) =
    if c == b'-'
    then option_map negated (digits_from 0 false cs)
    else if c == b'+'
    then option_map pos (digits_from 0 false cs)
    else option_map pos (digits_from 0 false (c ∷ cs))

-- int(text), or `none` where it raises ValueError, for text whose digits and spaces are ASCII.
unfoldable pub parse_int : List ℕ → Option ℤ
parse_int text = signed (rstrip (lstrip text))
