-- ===== src/Migrations/Rows.antt =====
-- What the migrations 0003 and 0004 of migrations/versions do to the rows of the table of jobs. `is_space`
-- is the class \s of PostgreSQL's regular expressions; `none` is the error of a value that is
-- longer than its column.
use Prim.Native.Char.{Char, code}
use Prim.Native.String.{◌++◌}
use Prim.Native.String.append
use distributed_asynchronous.Prelude.{
  ℕ, ◌≡◌, refl, ap, ◌∙◌, arith, String, Bool, true, false, not, ◌&&◌, Option, none, some, List, [],
  ◌∷◌, leb, ◌==◌, is_none, if◌then◌else◌, codes, length, str_eq,
}
use distributed_asynchronous.Table.{update_where}
use distributed_asynchronous.Models.{Job}

-- UPDATE jobs SET enabled = false WHERE owner_user_id IS NULL
unfoldable pub disable_unowned : List Job → List Job
disable_unowned jobs =
    update_where (λ job. is_none job.owner_user_id) (λ job. record job { enabled = false }) jobs

abbrev before_first : Char → Option (String × String) → Option (String × String)
before_first c none = none
before_first c (some (before, rest)) = some (String.◌∷◌ c before, rest)

-- The text before the first closing bracket, and the text after it.
abbrev pub until_bracket : String → Option (String × String)
until_bracket String.[] = none
until_bracket (String.◌∷◌ c s) =
    let rest = before_first c (until_bracket s) in if code c == b']' then some ("", s) else rest

abbrev nonempty_prefix : Option (String × String) → Option (String × String)
nonempty_prefix none = none
nonempty_prefix (some (before, rest)) = if str_eq before "" then none else some (before, rest)

-- '^\[([^\]]+)\]': the group, and what follows the match
unfoldable pub bracketed : String → Option (String × String)
bracketed String.[] = none
bracketed (String.◌∷◌ c s) = if code c == b'[' then nonempty_prefix (until_bracket s) else none

module _ (is_space : ℕ → Bool) where
  -- \s*
  abbrev pub skip_spaces : String → String
  skip_spaces String.[] = ""
  skip_spaces (String.◌∷◌ c s) =
      let rest = skip_spaces s in if is_space (code c) then rest else String.◌∷◌ c s

  -- The row after the update; the column category is a VARCHAR(64).
  abbrev pub with_category : Job → Option (String × String) → Option Job
  with_category job none = some job
  with_category job (some (category, rest)) =
      if leb (length (codes category)) 64
      then some (record job { category = some category; description = some (skip_spaces rest) })
      else none

  abbrev described : Option String → Option (String × String)
  described none = none
  described (some description) = bracketed description

  unfoldable pub backfill_job : Job → Option Job
  unfolding bracketed
  backfill_job job = with_category job (described job.description)

  abbrev row_first : Option Job → Option (List Job) → Option (List Job)
  row_first none rows = none
  row_first (some job) none = none
  row_first (some job) (some jobs) = some (job ∷ jobs)

  unfoldable pub backfill : List Job → Option (List Job)
  unfolding backfill_job
  backfill [] = some []
  backfill (job ∷ jobs) = row_first (backfill_job job) (backfill jobs)

-- No character is a closing bracket.
abbrev pub lacks_bracket : String → Bool
lacks_bracket String.[] = true
lacks_bracket (String.◌∷◌ c s) = not (code c == b']') && lacks_bracket s

-- '[category] text', as the frontend wrote it.
abbrev pub legacy : (category text : String) → String
legacy category text = String.◌∷◌ "[" (category ++ String.◌∷◌ "]" (String.◌∷◌ " " text))

until_bracket-append :
    (before rest : String)
    → lacks_bracket before ≡ true
    → until_bracket (before ++ String.◌∷◌ "]" rest) ≡ some (before, rest)
until_bracket-append String.[] rest h = rw (append.nil) refl
until_bracket-append (String.◌∷◌ c s) rest h =
    rw (append.cons) (ground (arith, until_bracket-append s rest))

-- The text does not begin with a space.
abbrev pub StartsPlain : (ℕ → Bool) → String → Type 0
StartsPlain is_space String.[] = Unit
StartsPlain is_space (String.◌∷◌ c s) = is_space (code c) ≡ false

skip_spaces-plain :
    (is_space : ℕ → Bool) (text : String)
    → StartsPlain is_space text
    → skip_spaces is_space text ≡ text
skip_spaces-plain is_space String.[] h = refl
skip_spaces-plain is_space (String.◌∷◌ c s) h = rw h refl

bracketed-legacy :
    (category text : String)
    → lacks_bracket category ≡ true
    → str_eq category "" ≡ false
    → bracketed (legacy category text) ≡ some (category, String.◌∷◌ " " text)
unfolding bracketed
bracketed-legacy category text h e =
    ap nonempty_prefix (until_bracket-append category (String.◌∷◌ " " text) h) ∙ rw e refl

-- A description that the frontend wrote as '[category] text' is taken apart by the migration: the
-- job's category and description become the two texts, and nothing else changes. The conditions are
-- that the category is not empty, has no closing bracket and has at most 64 characters, and that
-- the text does not begin with a space; a category of more than 64 characters makes the migration
-- fail.
pub backfill_job-legacy :
    (is_space : ℕ → Bool) (job : Job) (category text : String)
    → is_space b' ' ≡ true
    → lacks_bracket category ≡ true
    → str_eq category "" ≡ false
    → StartsPlain is_space text
    → backfill_job is_space (record job { description = some (legacy category text) }) ≡ (
        if leb (length (codes category)) 64
        then some (record job { category = some category; description = some text })
        else none)
unfolding backfill_job
backfill_job-legacy is_space job category text space h e plain =
    rw (bracketed-legacy category text h e, space, skip_spaces-plain is_space text plain) refl
