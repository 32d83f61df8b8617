-- ===== src/Api/Users.antt =====
-- The schemas of users in backend/common/schemas.py, the settings of backend/common/config.py that the
-- tokens need, and how a handler fails.
use distributed_asynchronous.Prelude.{
  ℕ, ◌*◌, String, Bool, true, ◌&&◌, ◌||◌, Option, none, some, List, [], ◌∷◌, leb, ◌==◌, codes,
  length,
}
use distributed_asynchronous.Models.{Time, seconds, User}
use distributed_asynchronous.Auth.Tokens.{Raised}
use distributed_asynchronous.Api.Http.{HttpError}

pub record UserCreate : Type 0 where
  pub username : String
  pub password : String
  pub email : Option String

abbrev within : (lo hi : ℕ) → String → Bool
within lo hi s = leb lo (length (codes s)) && leb (length (codes s)) hi

-- [A-Za-z0-9_.-]
abbrev is_username_character : ℕ → Bool
is_username_character c =
    leb b'A' c && leb c b'Z'
    || leb b'a' c && leb c b'z'
    || leb b'0' c && leb c b'9'
    || c == b'_'
    || c == b'.'
    || c == b'-'

abbrev all_username_characters : List ℕ → Bool
all_username_characters [] = true
all_username_characters (c ∷ cs) = is_username_character c && all_username_characters cs

abbrev fits_email : Option String → Bool
fits_email none = true
fits_email (some email) = leb (length (codes email)) 255

-- Whether UserCreate accepts the payload.
unfoldable pub is_valid_user : UserCreate → Bool
is_valid_user payload =
    within 3 64 payload.username
    && all_username_characters (codes payload.username)
    && within 8 128 payload.password
    && fits_email payload.email

pub record UserLogin : Type 0 where
  pub username : String
  pub password : String

pub record UserOut : Type 0 where
  pub id : ℕ
  pub username : String
  pub email : Option String
  pub is_active : Bool
  pub created_at : Time

pub record TokenOut : Type 0 where
  pub access_token : List ℕ
  pub token_type : String
  pub expires_in : ℕ
  pub user : UserOut

pub record Settings : Type 0 where
  pub auth_secret_key : String
  pub auth_token_expire_minutes : ℕ

-- timedelta(minutes=settings.auth_token_expire_minutes)
abbrev pub expires : Settings → Time
expires settings = seconds (settings.auth_token_expire_minutes * 60)

-- How a handler fails: by an HTTPException, or by an exception that becomes the status 500.
pub data Failure : Type 0 where
  http : HttpError → Failure
  raised : Raised → Failure

abbrev pub unauthorized : String → Failure
unauthorized detail = http (record { status_code = 401; detail = detail })

-- UserOut.model_validate(user)
unfoldable pub user_out : User → UserOut
user_out user = record {
  id = user.id;
  username = user.username;
  email = user.email;
  is_active = user.is_active;
  created_at = user.created_at;
}
