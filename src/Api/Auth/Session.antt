-- ===== src/Api/Auth/Session.antt =====
-- The user behind the token that `register` and `login` answer with.
use distributed_asynchronous.Prelude.{
  ℕ, ◌+◌, ◌≤◌, ◌≡◌, ◌∙◌, refl, sym, ap, subst, arith, String, Bool, true, false, not, Option, none,
  some, List, [], ◌∷◌, leb, if◌then◌else◌, Result, ok, err, codes, All,
}
use distributed_asynchronous.Models.{Time, User, Database}
use distributed_asynchronous.Models.Json.{pos, get}
use distributed_asynchronous.Table.{select, by_key, found_self, Ascending, All-select}
use distributed_asynchronous.Auth.Crypto.{Crypto, GivesBytes, ReadsBack}
use distributed_asynchronous.Auth.Text.Numerals.{parse_int-show}
use distributed_asynchronous.Auth.Passwords.{verify_password}
use distributed_asynchronous.Auth.Tokens.{Raised, timestamp, claims}
use distributed_asynchronous.Auth.Tokens.RoundTrip.{decode_access_token-create_access_token}
use distributed_asynchronous.Api.Auth.{
  scalar_one_or_none, goes_by, token_for_user, admit, admit_found, answer_verified, login,
  HttpAuthorizationCredentials, subject, int_of, user_by_id, user_of, user_of_decoded, active_user,
  get_current_user, is_bearer,
}
use distributed_asynchronous.Api.Users.{
  unauthorized, user_out, UserLogin, TokenOut, Settings, expires,
}

subject-claims :
    (user_id : ℕ) (username : String) (delta now : Time)
    → subject (claims user_id username delta now) ≡ some (pos user_id)
unfolding subject claims get int_of
subject-claims user_id username delta now = parse_int-show user_id

-- The Authorization header for a token.
abbrev pub bearer : TokenOut → Option HttpAuthorizationCredentials
bearer reply = some (record { scheme = codes "Bearer"; credentials = reply.access_token })

leb-true : (m n : ℕ) → m ≤ n → leb m n ≡ true
leb-true m n h = ground arith

module _ (crypto : Crypto) (bytes : GivesBytes crypto) (settings : Settings) where
  user_of-claims :
      (user : User) (now : Time) (db : Database)
      → by_key (λ (u : User). u.id) user.id db.users ≡ some user
      → user.is_active ≡ true
      → user_of (claims user.id user.username (expires settings) now) db ≡ ok user
  unfolding user_of user_by_id active_user
  user_of-claims user now db found active =
      ap
        (λ sub. elim sub [
          | none ↦ err (unauthorized "invalid token subject")
          | some user_id ↦ active_user (user_by_id user_id db)
        ])
        (subject-claims user.id user.username (expires settings) now)
      ∙ ap active_user found
      ∙ rw (active) refl

  pub get_current_user-token_for_user :
      (user : User) (now later : Time) (db : Database)
      → by_key (λ (u : User). u.id) user.id db.users ≡ some user
      → user.is_active ≡ true
      → ReadsBack crypto (claims user.id user.username (expires settings) now)
      → timestamp later ≤ timestamp (now + expires settings)
      → get_current_user crypto settings (bearer (token_for_user crypto settings user now)) later db
        ≡ ok user
  unfolding get_current_user token_for_user is_bearer
  get_current_user-token_for_user user now later db found active reads h =
      let payload = claims user.id user.username (expires settings) now in
      ap (λ decoded. user_of_decoded crypto settings decoded db)
        (decode_access_token-create_access_token crypto bytes user.id user.username
            settings.auth_secret_key (expires settings) now later reads
          ∙ ap (λ in_time. ok (if in_time then some payload else none))
              (leb-true (timestamp later) (timestamp (now + expires settings)) h))
      ∙ user_of-claims user now db found active

-- What holds of every row holds of the one that `scalar_one_or_none` gives.
All-scalar_one_or_none :
    (P : User → Type 0) (rows : List User) (user : User)
    → All P rows
    → scalar_one_or_none rows ≡ ok (some user)
    → P user
unfolding scalar_one_or_none
All-scalar_one_or_none P [] user all e = ground arith
All-scalar_one_or_none P (x ∷ []) user all e = subst P (ground arith) all.0
All-scalar_one_or_none P (x ∷ y ∷ rest) user all e = ground arith

select-passes :
    (test : User → Bool) (users : List User) → All (λ u. test u ≡ true) (select test users)
unfolding select
select-passes test [] = tt
select-passes test (x ∷ xs) = ground (arith, select-passes test xs)

-- The user that `login` finds is the row under its own id, and goes by the name.
found_user :
    (test : User → Bool) (users : List User) (hi : ℕ) (user : User)
    → Ascending (λ (u : User). u.id) 0 users hi
    → scalar_one_or_none (select test users) ≡ ok (some user)
    → (by_key (λ (u : User). u.id) user.id users ≡ some user) × (test user ≡ true)
found_user test users hi user v h = (
  (All-scalar_one_or_none _ (select test users) user
      (All-select _ test users (found_self (λ (u : User). u.id) 0 users hi v)) h).1,
  All-scalar_one_or_none _ (select test users) user (select-passes test users) h,
)

module _ (crypto : Crypto) (settings : Settings) where
  -- `admit` lets in an active user who has the password.
  admit-admits :
      (password : String) (found : Option User) (now : Time) (reply : TokenOut)
      → admit crypto settings password found now ≡ ok reply
      → (user : User) × (found ≡ some user)
        × (user.is_active ≡ true)
        × (verify_password crypto password user.password_hash ≡ ok true)
        × (reply ≡ token_for_user crypto settings user now)
  unfolding admit
  admit-admits password none now reply h = ground arith
  admit-admits password (some user) now reply h =
      go (verify_password crypto password user.password_hash) refl h
    where
      go :
          (verified : Result Raised Bool)
          → verify_password crypto password user.password_hash ≡ verified
          → (if not user.is_active
              then err (unauthorized "invalid username or password")
              else answer_verified crypto settings user now verified)
            ≡ ok reply
          → (owner : User) × (some user ≡ some owner)
            × (owner.is_active ≡ true)
            × (verify_password crypto password owner.password_hash ≡ ok true)
            × (reply ≡ token_for_user crypto settings owner now)
      go (err e) eq k = ground arith
      go (ok false) eq k = ground arith
      go (ok true) eq k = (user, refl, ground arith, eq, ground arith)

  admit_found-admits :
      (password : String) (found : Result Raised (Option User)) (now : Time) (reply : TokenOut)
      → admit_found crypto settings password found now ≡ ok reply
      → (user : User) × (found ≡ ok (some user))
        × (user.is_active ≡ true)
        × (verify_password crypto password user.password_hash ≡ ok true)
        × (reply ≡ token_for_user crypto settings user now)
  admit_found-admits password (err e) now reply h = ground arith
  admit_found-admits password (ok found) now reply h =
      let (user, e, active, verified, answer) = admit-admits password found now reply h in
      (user, ap ok e, active, verified, answer)

module _ (crypto : Crypto) (bytes : GivesBytes crypto) (settings : Settings) where
  -- When `login` answers with a token, there is an active user who goes by the name that was given
  -- and has the password that was given, and until the token expires `get_current_user` answers a
  -- request that bears it with this user, while the table of users stays as it is. The conditions
  -- are that the ids of the users ascend and that json.loads reads the token's claims back.
  pub get_current_user-login :
      (payload : UserLogin) (now later : Time) (db : Database) (reply : TokenOut)
      → Ascending (λ (u : User). u.id) 0 db.users db.next_user_id
      → ReadsBack crypto (claims reply.user.id reply.user.username (expires settings) now)
      → timestamp later ≤ timestamp (now + expires settings)
      → login crypto settings payload now db ≡ ok reply
      → (user : User) × (get_current_user crypto settings (bearer reply) later db ≡ ok user)
        × (goes_by payload.username user ≡ true)
        × (user.is_active ≡ true)
        × (verify_password crypto payload.password user.password_hash ≡ ok true)
  unfolding login token_for_user user_out
  get_current_user-login payload now later db reply v reads in_time h =
      let (user, found, active, verified, e) =
        admit_found-admits crypto settings payload.password
          (scalar_one_or_none (select (goes_by payload.username) db.users)) now reply h in
      let row = found_user (goes_by payload.username) db.users db.next_user_id user v found in
      (
        user,
        subst (λ r. get_current_user crypto settings (bearer r) later db ≡ ok user) (sym e)
            (get_current_user-token_for_user crypto bytes settings user now later db row.0 active
              (subst
                (λ r. ReadsBack crypto (claims r.user.id r.user.username (expires settings) now)) e
                reads)
              in_time),
        row.1,
        active,
        verified,
      )
