-- ===== src/Auth/Passwords.antt =====
-- hash_password and verify_password of backend/common/auth.py. The 16 random bytes of the salt are
-- an argument.
pub mod Check
use distributed_asynchronous.Prelude.{
  ℕ, zero, suc, String, Bool, false, not, Option, none, some, List, ◌∷◌, ◌++◌, ltb, if◌then◌else◌,
  Result, ok, err, codes, show,
}
use distributed_asynchronous.Models.Json.{ℤ, pos, negsuc}
use distributed_asynchronous.Auth.Crypto.{Crypto}
use distributed_asynchronous.Auth.Base64.{b64encode, b64decode}
use distributed_asynchronous.Auth.Text.{equal, split_once, parse_int}
use distributed_asynchronous.Auth.Tokens.{Raised, value_error, overflow_error}

abbrev pub pbkdf2_iterations : ℕ
pbkdf2_iterations = 210000

abbrev pub algorithm_name : List ℕ
algorithm_name = codes "pbkdf2_sha256"

-- The four parts of a stored password.
pub record Parts : Type 0 where
  pub algorithm : List ℕ
  pub iterations_raw : List ℕ
  pub salt_raw : List ℕ
  pub digest_raw : List ℕ

abbrev pub with_salt : (algorithm iterations_raw : List ℕ) → Option (List ℕ × List ℕ) → Option Parts
with_salt algorithm iterations_raw none = none
with_salt algorithm iterations_raw (some (salt_raw, digest_raw)) = some (record {
  algorithm = algorithm;
  iterations_raw = iterations_raw;
  salt_raw = salt_raw;
  digest_raw = digest_raw;
})

abbrev pub with_iterations : (algorithm : List ℕ) → Option (List ℕ × List ℕ) → Option Parts
with_iterations algorithm none = none
with_iterations algorithm (some (iterations_raw, rest)) =
    with_salt algorithm iterations_raw (split_once b'$' rest)

abbrev pub with_algorithm : Option (List ℕ × List ℕ) → Option Parts
with_algorithm none = none
with_algorithm (some (algorithm, rest)) = with_iterations algorithm (split_once b'$' rest)

-- password_hash.split("$", 3), or `none` where unpacking it raises ValueError.
unfoldable pub split_parts : List ℕ → Option Parts
split_parts password_hash = with_algorithm (split_once b'$' password_hash)

-- What the stored text says: the iterations, the salt and the expected digest.
pub record Stored : Type 0 where
  pub iterations : ℤ
  pub salt : List ℕ
  pub expected : List ℕ

abbrev pub read_digest : ℤ → (salt : List ℕ) → Option (List ℕ) → Option Stored
read_digest iterations salt none = none
read_digest iterations salt (some expected) =
    some (record { iterations = iterations; salt = salt; expected = expected })

abbrev pub read_salt : ℤ → (digest_raw : List ℕ) → Option (List ℕ) → Option Stored
read_salt iterations digest_raw none = none
read_salt iterations digest_raw (some salt) = read_digest iterations salt (b64decode digest_raw)

abbrev pub read_iterations : Parts → Option ℤ → Option Stored
read_iterations parts none = none
read_iterations parts (some iterations) =
    read_salt iterations parts.digest_raw (b64decode parts.salt_raw)

unfoldable pub read_parts : Parts → Option Stored
read_parts parts = read_iterations parts (parse_int parts.iterations_raw)

abbrev pub if_pbkdf2 : Option Parts → Option Stored
if_pbkdf2 none = none
if_pbkdf2 (some parts) =
    if not (equal parts.algorithm algorithm_name) then none else read_parts parts

-- `none` where the code returns False before it computes a digest.
unfoldable pub read_hash : List ℕ → Option Stored
read_hash password_hash = if_pbkdf2 (split_parts password_hash)

module _ (crypto : Crypto) where
  unfoldable pub hash_password : (password : String) (salt : List ℕ) → List ℕ
  hash_password password salt =
      let digest = crypto.pbkdf2_hmac (crypto.encode password) salt pbkdf2_iterations in
      algorithm_name
      ++ b'$' ∷ codes (show pbkdf2_iterations)
      ++ b'$' ∷ b64encode salt
      ++ b'$' ∷ b64encode digest

  -- hashlib.pbkdf2_hmac raises outside of the try where the iterations do not fit.
  unfoldable pub derive : (password : String) → Stored → Result Raised (List ℕ)
  derive password stored = elim stored.iterations [
    | negsuc n ↦ err value_error
    | pos zero ↦ err value_error
    | pos (suc n) ↦
        if ltb (suc n) 2_147_483_648
        then ok (crypto.pbkdf2_hmac (crypto.encode password) stored.salt (suc n))
        else err overflow_error
  ]

  abbrev pub compare_digest : (expected : List ℕ) → Result Raised (List ℕ) → Result Raised Bool
  compare_digest expected (err e) = err e
  compare_digest expected (ok actual) = ok (equal actual expected)

  abbrev pub check : (password : String) → Option Stored → Result Raised Bool
  check password none = ok false
  check password (some stored) = compare_digest stored.expected (derive password stored)

  unfoldable pub verify_password : (password : String) (password_hash : List ℕ) → Result Raised Bool
  verify_password password password_hash = check password (read_hash password_hash)
