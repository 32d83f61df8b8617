-- ===== src/Api/Auth.antt =====
-- backend/api/routers/auth.py and get_current_user of backend/api/deps.py: registration, login and
-- the user behind a bearer token. A handler runs at one instant `now`; a session that fails is rolled back.
pub mod Session
pub mod Registration
use distributed_asynchronous.Prelude.{
  ℕ, ◌+◌, ◌*◌, String, Bool, true, false, not, ◌&&◌, ◌||◌, Option, none, some, List, [], ◌∷◌, ◌++◌,
  ltb, leb, ◌==◌, if◌then◌else◌, Result, ok, err, codes, length, str_eq, map, lower_code,
}
use distributed_asynchronous.Models.{Time, seconds, User, Database}
use distributed_asynchronous.Models.Json.{
  ℤ, pos, negsuc, Json, null, bool, num, text, arr, obj, Fields, get,
}
use distributed_asynchronous.Table.{select, by_key}
use distributed_asynchronous.Auth.Crypto.{Crypto}
use distributed_asynchronous.Auth.Tokens.{
  Raised, multiple_results_found, create_access_token, decode_access_token,
}
use distributed_asynchronous.Auth.Passwords.{hash_password, verify_password}
use distributed_asynchronous.Auth.Text.{equal, parse_int}
use distributed_asynchronous.Api.Users.{
  UserCreate, UserLogin, UserOut, TokenOut, Settings, expires, Failure, http, raised, unauthorized,
  user_out,
}
use distributed_asynchronous.Api.Http.{HttpError, conflict}

-- User.email == text: NULL is equal to nothing.
abbrev pub has_email : String → User → Bool
has_email email user = elim user.email [ none ↦ false | some e ↦ str_eq e email ]

-- .scalar_one_or_none()
unfoldable pub scalar_one_or_none : List User → Result Raised (Option User)
scalar_one_or_none [] = ok none
scalar_one_or_none (user ∷ []) = ok (some user)
scalar_one_or_none (user ∷ other ∷ rest) = err multiple_results_found

abbrev pub same_email : Option String → User → Bool
same_email none user = false
same_email (some email) user = has_email email user

-- or_(*conditions) of `register`
abbrev pub is_taken : UserCreate → User → Bool
is_taken payload user = str_eq user.username payload.username || same_email payload.email user

-- or_(User.username == name, User.email == name) of `login`
abbrev pub goes_by : String → User → Bool
goes_by name user = str_eq user.username name || has_email name user

-- The Authorization header, as fastapi's HTTPBearer reads it.
pub record HttpAuthorizationCredentials : Type 0 where
  pub scheme : List ℕ
  pub credentials : List ℕ

-- scheme.lower() == "bearer": no other letter than an ASCII one lowers to a letter of this word.
unfoldable pub is_bearer : (scheme : List ℕ) → Bool
is_bearer scheme = equal (map lower_code scheme) (codes "bearer")

-- int(value), or `none` where it raises TypeError or ValueError.
unfoldable pub int_of : Json → Option ℤ
int_of null = none
int_of (bool true) = some (pos 1)
int_of (bool false) = some (pos 0)
int_of (num n) = some n
int_of (text s) = parse_int (codes s)
int_of (arr vs) = none
int_of (obj fs) = none

-- int(payload["sub"]), or `none` where the handler answers "invalid token subject".
unfoldable pub subject : Fields → Option ℤ
subject payload = elim (get "sub" payload) [ none ↦ none | some value ↦ int_of value ]

-- session.get(User, user_id)
unfoldable pub user_by_id : ℤ → Database → Option User
user_by_id (pos n) db = by_key (λ u. u.id) n db.users
user_by_id (negsuc n) db = none

-- user is None or not user.is_active
unfoldable pub active_user : Option User → Result Failure User
active_user none = err (unauthorized "user not found or inactive")
active_user (some user) =
    if not user.is_active then err (unauthorized "user not found or inactive") else ok user

unfoldable pub user_of : (payload : Fields) → Database → Result Failure User
user_of payload db = elim (subject payload) [
  | none ↦ err (unauthorized "invalid token subject")
  | some user_id ↦ active_user (user_by_id user_id db)
]

-- session.add(user); session.commit()
unfoldable pub add_user : User → Database → Database
add_user user db = record db { users = db.users ++ user ∷ []; next_user_id = db.next_user_id + 1 }

module _ (crypto : Crypto) (settings : Settings) where
  -- _token_for_user
  unfoldable pub token_for_user : User → (now : Time) → TokenOut
  token_for_user user now = record {
    access_token =
        create_access_token crypto user.id user.username settings.auth_secret_key (expires settings)
          now;
    token_type = "bearer";
    expires_in = settings.auth_token_expire_minutes * 60;
    user = user_out user;
  }

  unfoldable pub new_user : UserCreate → (salt : List ℕ) → (now : Time) → (id : ℕ) → User
  new_user payload salt now id = record {
    id = id;
    username = payload.username;
    email = payload.email;
    password_hash = hash_password crypto payload.password salt;
    is_active = true;
    created_at = now;
    updated_at = now;
  }

  abbrev pub register_unless :
      Result Raised (Option User)
      → UserCreate
      → (salt : List ℕ) → (now : Time) → Database
      → Result Failure (TokenOut × Database)
  register_unless (err e) payload salt now db = err (raised e)
  register_unless (ok (some existing)) payload salt now db =
      err (http (conflict "username or email already exists"))
  register_unless (ok none) payload salt now db =
      let user = new_user payload salt now db.next_user_id in
      ok (token_for_user user now, add_user user db)

  unfoldable pub register :
      UserCreate → (salt : List ℕ) → (now : Time) → Database → Result Failure (TokenOut × Database)
  register payload salt now db =
      register_unless (scalar_one_or_none (select (is_taken payload) db.users)) payload salt now db

  abbrev pub answer_verified : User → (now : Time) → Result Raised Bool → Result Failure TokenOut
  answer_verified user now (err e) = err (raised e)
  answer_verified user now (ok false) = err (unauthorized "invalid username or password")
  answer_verified user now (ok true) = ok (token_for_user user now)

  -- user is None or not user.is_active or not verify_password(...)
  unfoldable pub admit : (password : String) → Option User → (now : Time) → Result Failure TokenOut
  admit password none now = err (unauthorized "invalid username or password")
  admit password (some user) now =
      if not user.is_active
      then err (unauthorized "invalid username or password")
      else answer_verified user now (verify_password crypto password user.password_hash)

  abbrev pub admit_found :
      (password : String) → Result Raised (Option User) → (now : Time) → Result Failure TokenOut
  admit_found password (err e) now = err (raised e)
  admit_found password (ok found) now = admit password found now

  unfoldable pub login : UserLogin → (now : Time) → Database → Result Failure TokenOut
  login payload now db =
      admit_found payload.password (scalar_one_or_none (select (goes_by payload.username) db.users))
        now

  abbrev pub user_of_decoded : Result Raised (Option Fields) → Database → Result Failure User
  user_of_decoded (err e) db = err (raised e)
  user_of_decoded (ok none) db = err (unauthorized "invalid or expired token")
  user_of_decoded (ok (some payload)) db = user_of payload db

  unfoldable pub get_current_user :
      Option HttpAuthorizationCredentials → (now : Time) → Database → Result Failure User
  get_current_user none now db = err (unauthorized "missing bearer token")
  get_current_user (some header) now db =
      if not (is_bearer header.scheme)
      then err (unauthorized "missing bearer token")
      else user_of_decoded
          (decode_access_token crypto header.credentials settings.auth_secret_key now) db

  -- me
  unfoldable pub me :
      Option HttpAuthorizationCredentials → (now : Time) → Database → Result Failure UserOut
  me header now db = elim (get_current_user header now db) [
    | err e ↦ err e
    | ok user ↦ ok (user_out user)
  ]
