-- ===== src/Auth/Tokens.antt =====
-- create_access_token and decode_access_token of backend/common/auth.py.
pub mod Accepted
pub mod RoundTrip
use distributed_asynchronous.Prelude.{
  ℕ, ◌+◌, ◌/◌, String, Bool, true, false, not, Option, none, some, List, [], ◌∷◌, ◌++◌, ltb,
  if◌then◌else◌, Result, ok, err, codes, show,
}
use distributed_asynchronous.Models.{Time}
use distributed_asynchronous.Models.Json.{
  ℤ, pos, negsuc, Json, null, bool, num, text, arr, obj, Fields, end, field, get,
}
use distributed_asynchronous.Auth.Crypto.{Crypto}
use distributed_asynchronous.Auth.Base64.{b64encode, b64decode}
use distributed_asynchronous.Auth.Text.{is_ascii, equal, split_once}

-- What the code lets through: the exceptions that it does not catch.
pub data Raised : Type 0 where
  unicode_encode_error type_error value_error overflow_error attribute_error
        multiple_results_found :
      Raised

-- int(time.timestamp())
abbrev pub timestamp : Time → ℕ
timestamp time = time / 1_000_000

unfoldable pub claims : (user_id : ℕ) (username : String) (expires_delta now : Time) → Fields
claims user_id username expires_delta now = field "sub" (text (show user_id)) (
    field "username" (text username) (
      field "iat" (num (pos (timestamp now)))
        (field "exp" (num (pos (timestamp (now + expires_delta)))) end)))

-- `isinstance(exp, int)`: True and False are integers too.
unfoldable pub exp_int : Option Json → Option ℤ
exp_int none = none
exp_int (some null) = none
exp_int (some (bool true)) = some (pos 1)
exp_int (some (bool false)) = some (pos 0)
exp_int (some (num n)) = some n
exp_int (some (text s)) = none
exp_int (some (arr vs)) = none
exp_int (some (obj fs)) = none

abbrev below : ℤ → ℕ → Bool
below (pos n) k = ltb n k
below (negsuc n) k = true

-- not isinstance(exp, int) or exp < int(now.timestamp())
unfoldable pub is_expired : Time → Fields → Bool
unfolding exp_int get
is_expired now payload = elim (exp_int (get "exp" payload)) [
  | none ↦ true
  | some exp ↦ below exp (timestamp now)
]

-- The payload must be a dictionary, to have `.get`.
unfoldable pub check_payload : Time → Option Json → Result Raised (Option Fields)
unfolding is_expired
check_payload now none = ok none
check_payload now (some null) = err attribute_error
check_payload now (some (bool b)) = err attribute_error
check_payload now (some (num n)) = err attribute_error
check_payload now (some (text s)) = err attribute_error
check_payload now (some (arr vs)) = err attribute_error
check_payload now (some (obj payload)) =
    if is_expired now payload then ok none else ok (some payload)

module _ (crypto : Crypto) where
  -- _b64encode(expected.digest())
  unfoldable pub signature : (secret_key : String) (payload_raw : List ℕ) → List ℕ
  signature secret_key payload_raw =
      b64encode (crypto.hmac_sha256 (crypto.encode secret_key) payload_raw)

  -- The current time is an argument.
  unfoldable pub create_access_token :
      (user_id : ℕ) (username secret_key : String) (expires_delta now : Time) → List ℕ
  unfolding signature claims
  create_access_token user_id username secret_key expires_delta now =
      let payload_raw = b64encode (crypto.dumps (claims user_id username expires_delta now)) in
      payload_raw ++ b'.' ∷ signature secret_key payload_raw

  -- json.loads(_b64decode(payload_raw))
  unfoldable pub load_payload : List ℕ → Option Json
  load_payload payload_raw = elim (b64decode payload_raw) [
    | none ↦ none
    | some raw ↦ crypto.loads raw
  ]

  -- compare_digest takes only ASCII text.
  unfoldable pub check_token :
      (payload_raw signature_raw : List ℕ) (secret_key : String)
      → Time
      → Result Raised (Option Fields)
  unfolding check_payload load_payload signature
  check_token payload_raw signature_raw secret_key now =
      if not (is_ascii payload_raw)
      then err unicode_encode_error
      else if not (is_ascii signature_raw)
      then err type_error
      else if not (equal (signature secret_key payload_raw) signature_raw)
      then ok none
      else check_payload now (load_payload payload_raw)

  unfoldable pub decode_access_token :
      (token : List ℕ) (secret_key : String) → Time → Result Raised (Option Fields)
  unfolding check_token
  decode_access_token token secret_key now = elim (split_once b'.' token) [
    | none ↦ ok none
    | some (payload_raw, signature_raw) ↦ check_token payload_raw signature_raw secret_key now
  ]
