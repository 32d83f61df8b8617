-- ===== src/FilePath.antt =====
-- What the code uses of pathlib's Path and of str: name, stem and suffix of a path (Python 3.12, POSIX),
-- strip, and a prefix.
use Prim.Native.Char.{Char, code}
use Prim.Native.String.{String}
use distributed_asynchronous.Prelude.{
  ℕ, zero, suc, ◌≤◌, ◌≡◌, ◌⊎◌, refl, arith, inl, inr, Bool, true, false, not, ◌&&◌, ◌||◌, Option,
  none, some, List, [], ◌∷◌, leb, ◌==◌, if◌then◌else◌, str_eq, codes, length, All, Bool-cases,
}
use distributed_asynchronous.Table.{select}

-- `c` before the first part
abbrev before_first : Char → List String → List String
before_first c [] = (String.◌∷◌ c String.[]) ∷ []
before_first c (part ∷ parts) = (String.◌∷◌ c part) ∷ parts

-- path.split("/")
abbrev pub split_slash : String → List String
split_slash String.[] = "" ∷ []
split_slash (String.◌∷◌ c s) =
    let parts = split_slash s in if code c == b'/' then "" ∷ parts else before_first c parts

-- Empty components and "." are left out when a path is parsed.
abbrev pub is_component : String → Bool
is_component part = not (str_eq part "" || str_eq part ".")

abbrev pub last_or : String → List String → String
last_or other [] = other
last_or other (part ∷ parts) = last_or part parts

-- Path(path).name
unfoldable pub name_of : String → String
unfolding select
name_of path = last_or "" (select is_component (split_slash path))

-- The text before the last dot, and the text from it on.
abbrev pub last_dot : String → Option (String × String)
last_dot String.[] = none
last_dot (String.◌∷◌ c s) = elim (last_dot s) [
  | some (before, from) ↦ some (String.◌∷◌ c before, from)
  | none ↦ if code c == b'.' then some ("", String.◌∷◌ c s) else none
]

-- A name that only begins or ends with its last dot has no suffix.
abbrev pub has_suffix : String → String → Bool
has_suffix before from = not (str_eq before "" || str_eq from ".")

abbrev pub stem_of_name : String → Option (String × String) → String
stem_of_name name none = name
stem_of_name name (some (before, from)) = if has_suffix before from then before else name

abbrev pub suffix_of_name : Option (String × String) → String
suffix_of_name none = ""
suffix_of_name (some (before, from)) = if has_suffix before from then from else ""

-- Path(path).stem
unfoldable pub stem_of : String → String
stem_of path = stem_of_name (name_of path) (last_dot (name_of path))

-- Path(path).suffix
unfoldable pub suffix_of : String → String
suffix_of path = suffix_of_name (last_dot (name_of path))

-- str.isspace of one character
unfoldable pub is_space : ℕ → Bool
is_space c =
    leb 9 c && leb c 13
    || leb 28 c && leb c 32
    || c == 0x85
    || c == 0xA0
    || c == 0x1680
    || leb 0x2000 c && leb c 0x200A
    || c == 0x2028
    || c == 0x2029
    || c == 0x202F
    || c == 0x205F
    || c == 0x3000

abbrev lstrip : String → String
lstrip String.[] = ""
lstrip (String.◌∷◌ c s) = let rest = lstrip s in if is_space (code c) then rest else String.◌∷◌ c s

abbrev unless_space : Char → String → String
unless_space c String.[] = if is_space (code c) then "" else String.◌∷◌ c String.[]
unless_space c (String.◌∷◌ d s) = String.◌∷◌ c (String.◌∷◌ d s)

abbrev rstrip : String → String
rstrip String.[] = ""
rstrip (String.◌∷◌ c s) = unless_space c (rstrip s)

-- text.strip()
unfoldable pub strip : String → String
unfolding is_space
strip text = rstrip (lstrip text)

-- text[:n]
abbrev pub prefix : ℕ → String → String
prefix zero s = ""
prefix (suc n) String.[] = ""
prefix (suc n) (String.◌∷◌ c s) = String.◌∷◌ c (prefix n s)

pub length-prefix : (n : ℕ) (s : String) → length (codes (prefix n s)) ≤ n
length-prefix zero s = omega arith
length-prefix (suc n) String.[] = omega arith
length-prefix (suc n) (String.◌∷◌ c s) = omega (arith, length-prefix n s)

-- No character is a slash.
abbrev pub lacks_slash : String → Bool
lacks_slash String.[] = true
lacks_slash (String.◌∷◌ c s) = not (code c == b'/') && lacks_slash s

split_slash-lacks_slash : (s : String) → lacks_slash s ≡ true → split_slash s ≡ s ∷ []
split_slash-lacks_slash String.[] h = refl
split_slash-lacks_slash (String.◌∷◌ c s) h = ground (arith, split_slash-lacks_slash s)

abbrev Part : String → Type 0
Part s = lacks_slash s ≡ true

All-before_first :
    (c : Char) (parts : List String)
    → (code c == b'/') ≡ false
    → All Part parts
    → All Part (before_first c parts)
All-before_first c [] e h = (ground arith, tt)
All-before_first c (part ∷ parts) e h = (ground arith, h.1)

All-split_slash : (s : String) → All Part (split_slash s)
All-split_slash String.[] = (refl, tt)
All-split_slash (String.◌∷◌ c s) = elim (Bool-cases (code c == b'/')) [
  | inl e ↦ rw e (refl, All-split_slash s)
  | inr e ↦ rw e (All-before_first c (split_slash s) e (All-split_slash s))
]

-- What a name is: a component without a slash, or nothing.
abbrev IsName : String → Type 0
IsName s = Part s × ((is_component s ≡ true) ⊎ (s ≡ ""))

last_or-IsName :
    (other : String) (parts : List String)
    → IsName other
    → All Part parts
    → IsName (last_or other (select is_component parts))
unfolding select
last_or-IsName other [] n h = n
last_or-IsName other (part ∷ parts) n h = elim (Bool-cases (is_component part)) [
  | inl e ↦ rw e (last_or-IsName part parts (h.0, inl e) h.1)
  | inr e ↦ rw e (last_or-IsName other parts n h.1)
]

name_of-IsName : (s : String) → IsName (name_of s)
unfolding name_of
name_of-IsName s = last_or-IsName "" (split_slash s) (refl, inr refl) (All-split_slash s)

IsName-name_of : (s : String) → IsName s → name_of s ≡ s
unfolding name_of select
IsName-name_of s (part, inl e) = rw (split_slash-lacks_slash s part, e) refl
IsName-name_of s (part, inr e) = rw e refl

pub name_of-lacks_slash : (s : String) → lacks_slash (name_of s) ≡ true
name_of-lacks_slash s = (name_of-IsName s).0

-- The name of a path is its own name.
pub name_of-name_of : (s : String) → name_of (name_of s) ≡ name_of s
name_of-name_of s = IsName-name_of (name_of s) (name_of-IsName s)

name_test : name_of "/srv/./jobs/nightly.tar.gz/" ≡ "nightly.tar.gz"
unfolding name_of
name_test = refl

stem_test : stem_of "jobs/nightly.tar.gz" ≡ "nightly.tar"
unfolding stem_of name_of
stem_test = refl

suffix_test : suffix_of ".bashrc" ≡ ""
unfolding suffix_of name_of
suffix_test = refl

parent_test : name_of "a/.." ≡ ".."
unfolding name_of
parent_test = refl

strip_test : strip "  two words " ≡ "two words"
unfolding strip
strip_test = refl
