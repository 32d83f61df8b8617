-- ===== src/Samples/Accounts.antt =====
-- Runs of backend/common/auth.py and of the requests on accounts, with stand-ins for hashlib and json.
use distributed_asynchronous.Prelude.{
  ℕ, ◌+◌, ◌%◌, ◌≡◌, refl, arith, String, true, false, none, some, List, [], ◌∷◌, ◌++◌,
  if◌then◌else◌, ok, err, codes, show, length, map,
}
use distributed_asynchronous.Models.{User, empty}
use distributed_asynchronous.Models.Json.{pos, Json, num, text, obj, Fields, end, field}
use distributed_asynchronous.Table.{select, first}
use distributed_asynchronous.Auth.Crypto.{Crypto, Bytes, GivesBytes}
use distributed_asynchronous.Auth.Text.{equal, parse_int}
use distributed_asynchronous.Auth.Base64.{letter, value, b64encode, feed, a2b_base64, b64decode}
use distributed_asynchronous.Auth.Tokens.{
  claims, create_access_token, decode_access_token, multiple_results_found,
}
use distributed_asynchronous.Auth.Tokens.RoundTrip.{decode_access_token-create_access_token}
use distributed_asynchronous.Auth.Tokens.Accepted.{IsSigned, decode_access_token-IsSigned}
use distributed_asynchronous.Auth.Passwords.{
  split_parts, read_parts, read_hash, hash_password, derive, verify_password,
}
use distributed_asynchronous.Auth.Passwords.Check.{verify_password-hash_password}
use distributed_asynchronous.Api.Auth.{
  scalar_one_or_none, goes_by, token_for_user, new_user, add_user, register, admit, login,
  get_current_user,
}
use distributed_asynchronous.Api.Users.{UserCreate, TokenOut, Settings, user_out, raised}
use distributed_asynchronous.Api.Auth.Session.{bearer, get_current_user-login}
use distributed_asynchronous.Api.Auth.Registration.{login-register}

b64encode_test : b64encode (72 ∷ 101 ∷ 108 ∷ 108 ∷ []) ≡ codes "SGVsbA"
unfolding b64encode letter
b64encode_test = refl

to_bytes : List ℕ → List ℕ
to_bytes = map (λ n. n % 256)

to_bytes-Bytes : (xs : List ℕ) → Bytes (to_bytes xs)
unfolding to_bytes
to_bytes-Bytes [] = tt
to_bytes-Bytes (x ∷ xs) = (omega arith, to_bytes-Bytes xs)

-- A checksum in place of SHA-256.
abbrev sum : List ℕ → ℕ
sum [] = 0
sum (x ∷ xs) = x + sum xs

abbrev member : String → Json → List ℕ
member key (text s) = codes key ++ b':' ∷ codes s
member key (num (pos n)) = codes key ++ b':' ∷ codes (show n)
member key other = codes key

abbrev members : Fields → List ℕ
members end = []
members (field key value rest) = member key value ++ b',' ∷ members rest

abbrev alice_claims : Fields
alice_claims = claims 1 "alice" 3_600_000_000 5_000_000

abbrev crypto : Crypto
crypto = record {
  encode = codes;
  hmac_sha256 = λ key message. to_bytes (sum (key ++ message) ∷ length message ∷ []);
  pbkdf2_hmac = λ password salt n. to_bytes ((sum (password ++ salt) + n) ∷ []);
  dumps = λ payload. to_bytes (members payload);
  loads =
      λ raw. if equal raw (to_bytes (members alice_claims)) then some (obj alice_claims) else none;
}

crypto-GivesBytes : GivesBytes crypto
crypto-GivesBytes = record {
  hmac_sha256-Bytes = λ key message. to_bytes-Bytes (sum (key ++ message) ∷ length message ∷ []);
  pbkdf2_hmac-Bytes = λ password salt n. to_bytes-Bytes ((sum (password ++ salt) + n) ∷ []);
  dumps-Bytes = λ payload. to_bytes-Bytes (members payload);
}

abbrev settings : Settings
settings = record { auth_secret_key = "dev-change-me"; auth_token_expire_minutes = 60 }

abbrev token : List ℕ
token = create_access_token crypto 1 "alice" "dev-change-me" 3_600_000_000 5_000_000

alice-ReadsBack : crypto.loads (crypto.dumps alice_claims) ≡ some (obj alice_claims)
unfolding claims to_bytes show
alice-ReadsBack = refl

decode_access_token_example :
    decode_access_token crypto token "dev-change-me" 65_000_000 ≡ ok (some alice_claims)
decode_access_token_example =
    decode_access_token-create_access_token crypto crypto-GivesBytes 1 "alice" "dev-change-me"
      3_600_000_000 5_000_000 65_000_000 alice-ReadsBack

IsSigned_example : IsSigned crypto token "dev-change-me" 65_000_000 alice_claims
IsSigned_example =
    decode_access_token-IsSigned crypto token "dev-change-me" 65_000_000 alice_claims
      decode_access_token_example

verify_password_example :
    verify_password crypto "password2" (hash_password crypto "password1" (7 ∷ 8 ∷ [])) ≡ ok false
unfolding to_bytes
verify_password_example =
    verify_password-hash_password crypto crypto-GivesBytes "password2" "password1" (7 ∷ 8 ∷ [])
      (omega arith)

abbrev alice_payload : UserCreate
alice_payload = record { username = "alice"; password = "password1"; email = none }

abbrev alice : User
alice = new_user crypto settings alice_payload (7 ∷ 8 ∷ []) 5_000_000 1

abbrev alice_reply : TokenOut
alice_reply = token_for_user crypto settings alice 5_000_000

registers :
    register crypto settings alice_payload (7 ∷ 8 ∷ []) 5_000_000 empty
    ≡ ok (alice_reply, add_user alice empty)
unfolding register scalar_one_or_none select
registers = refl

logs_in :
    login crypto settings
      (record { username = "alice"; password = "password1" })
      5_000_000
      (add_user alice empty)
    ≡ ok alice_reply
unfolding login scalar_one_or_none select admit verify_password hash_password new_user add_user
    token_for_user read_hash split_parts read_parts derive parse_int show b64encode b64decode letter
    value feed a2b_base64 to_bytes
logs_in = refl

get_current_user-login_example :
    (user : User) × (get_current_user crypto settings
        (bearer alice_reply)
        65_000_000
        (add_user alice empty)
      ≡ ok user)
    × (goes_by "alice" user ≡ true)
    × (user.is_active ≡ true)
    × (verify_password crypto "password1" user.password_hash ≡ ok true)
unfolding add_user new_user token_for_user user_out
get_current_user-login_example =
    get_current_user-login crypto crypto-GivesBytes settings
      (record { username = "alice"; password = "password1" }) 5_000_000 65_000_000
      (add_user alice empty) alice_reply (omega arith) alice-ReadsBack (omega arith) logs_in

-- A second user whose address is the name of the first.
abbrev mallory_payload : UserCreate
mallory_payload = record { username = "mallory"; password = "password2"; email = some "alice" }

abbrev mallory : User
mallory = new_user crypto settings mallory_payload (9 ∷ []) 6_000_000 2

registers_next :
    register crypto settings mallory_payload (9 ∷ []) 6_000_000 (add_user alice empty)
    ≡ ok (token_for_user crypto settings mallory 6_000_000, add_user mallory (add_user alice empty))
unfolding register scalar_one_or_none select new_user add_user
registers_next = refl

alice_found : first (goes_by "alice") (add_user alice empty).users ≡ some alice
unfolding first new_user add_user
alice_found = refl

login_example :
    login crypto settings
      (record { username = "alice"; password = "password1" })
      7_000_000
      (add_user mallory (add_user alice empty))
    ≡ err (raised multiple_results_found)
login_example =
    login-register crypto settings mallory_payload (9 ∷ []) 6_000_000 (add_user alice empty)
      (add_user mallory (add_user alice empty)) (token_for_user crypto settings mallory 6_000_000)
      alice "alice" "password1" 7_000_000 alice_found refl registers_next
