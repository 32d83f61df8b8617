-- ===== src/Api/Auth/Registration.antt =====
-- Registration and the users that are there: names, addresses and ids.
use distributed_asynchronous.Prelude.{
  ℕ, ◌+◌, ◌≤◌, ◌≡◌, ◌≢◌, ◌∙◌, refl, sym, ap, subst, arith, String, Bool, true, false, ◌||◌, Option,
  none, some, List, [], ◌∷◌, ◌++◌, Result, ok, err, str_eq, str_eq_iff, All, All-append,
}
use distributed_asynchronous.Models.{Time, User, Database}
use distributed_asynchronous.Table.{select, first, by_key, by_key_new, select-append, Ascending}
use distributed_asynchronous.Auth.Crypto.{Crypto, GivesBytes, ReadsBack}
use distributed_asynchronous.Auth.Tokens.{Raised, multiple_results_found, timestamp, claims}
use distributed_asynchronous.Api.Auth.{
  scalar_one_or_none, same_email, is_taken, goes_by, has_email, token_for_user, new_user, add_user,
  register, register_unless, login, get_current_user, admit_found,
}
use distributed_asynchronous.Api.Users.{UserCreate, TokenOut, Settings, raised, expires}
use distributed_asynchronous.Api.Auth.Session.{bearer, get_current_user-token_for_user}

-- Two rows that the table must not hold together: User.username and User.email are unique, and
-- NULL is equal to nothing.
abbrev pub clash : User → User → Bool
clash user later = str_eq user.username later.username || same_email later.email user

abbrev pub UniqueUsers : List User → Type 0
UniqueUsers [] = Unit
UniqueUsers (user ∷ users) = All (λ later. clash user later ≡ false) users × UniqueUsers users

pub UniqueUsers-append :
    (users : List User) (user : User)
    → UniqueUsers users
    → All (λ u. clash u user ≡ false) users
    → UniqueUsers (users ++ user ∷ [])
UniqueUsers-append [] user v h = (tt, tt)
UniqueUsers-append (u ∷ users) user v h =
    (All-append _ users (user ∷ []) v.0 (h.0, tt), UniqueUsers-append users user v.1 h.1)

scalar_none : (rows : List User) → scalar_one_or_none rows ≡ ok none → rows ≡ []
unfolding scalar_one_or_none
scalar_none [] h = refl
scalar_none (x ∷ []) h = ground arith
scalar_none (x ∷ y ∷ rest) h = ground arith

pub select_empty :
    (test : User → Bool) (users : List User)
    → select test users ≡ []
    → All (λ u. test u ≡ false) users
unfolding select
select_empty test [] h = tt
select_empty test (u ∷ users) h = ground (arith, select_empty test users)

scalar_more :
    (rows : List User) (user : User)
    → rows ≢ []
    → scalar_one_or_none (rows ++ user ∷ []) ≡ err multiple_results_found
unfolding scalar_one_or_none
scalar_more [] user h = absurd (h refl)
scalar_more (x ∷ []) user h = refl
scalar_more (x ∷ y ∷ rest) user h = refl

select-first :
    (test : User → Bool) (users : List User) (user : User)
    → first test users ≡ some user
    → select test users ≢ []
unfolding select first
select-first test [] user h = ground arith
select-first test (u ∷ users) user h = ground (arith, select-first test users user)

select_last :
    (test : User → Bool) (user : User) → test user ≡ true → select test (user ∷ []) ≡ user ∷ []
unfolding select
select_last test user h = rw (h) refl

goes_by_email : (name : String) (user : User) → user.email ≡ some name → goes_by name user ≡ true
goes_by_email name user h =
    let same : has_email name user ≡ true =
      ap (λ email. elim email [ none ↦ false | some e ↦ str_eq e name ]) h
      ∙ (str_eq_iff name name).1 refl in
    ground (arith, same)

module _ (crypto : Crypto) (settings : Settings) where
  register_unless-adds :
      (found : Result Raised (Option User)) (payload : UserCreate) (salt : List ℕ) (now : Time)
      (db later : Database) (reply : TokenOut)
      → register_unless crypto settings found payload salt now db ≡ ok (reply, later)
      → (found ≡ ok none)
        × (reply
            ≡ token_for_user crypto settings
                (new_user crypto settings payload salt now db.next_user_id)
                now)
        × (later ≡ add_user (new_user crypto settings payload salt now db.next_user_id) db)
  register_unless-adds (err e) payload salt now db later reply h = ground arith
  register_unless-adds (ok (some user)) payload salt now db later reply h = ground arith
  register_unless-adds (ok none) payload salt now db later reply h = ground arith

  -- Registration keeps the constraints of the table of users: no two rows have the same name or the
  -- same address.
  pub register-UniqueUsers :
      (payload : UserCreate) (salt : List ℕ) (now : Time) (db later : Database) (reply : TokenOut)
      → UniqueUsers db.users
      → register crypto settings payload salt now db ≡ ok (reply, later)
      → UniqueUsers later.users
  unfolding register add_user new_user
  register-UniqueUsers payload salt now db later reply v h =
      let rows = select (is_taken payload) db.users in
      let (free, answer, e) =
        register_unless-adds (scalar_one_or_none rows) payload salt now db later reply h in
      subst (λ d. UniqueUsers d.users) (sym e)
        (UniqueUsers-append db.users (new_user crypto settings payload salt now db.next_user_id) v
          (select_empty (is_taken payload) db.users (scalar_none rows free)))

  -- A registration whose address is the name of a user who is there, and which succeeds, locks this
  -- name out: from then on `login` under the name ends in an exception, whatever the password is,
  -- because two rows go by the name.
  pub login-register :
      (payload : UserCreate) (salt : List ℕ) (now : Time) (db later : Database) (reply : TokenOut)
      (user : User) (name password : String) (at : Time)
      → first (goes_by name) db.users ≡ some user
      → payload.email ≡ some name
      → register crypto settings payload salt now db ≡ ok (reply, later)
      → login crypto settings (record { username = name; password = password }) at later
        ≡ err (raised multiple_results_found)
  unfolding register login add_user new_user
  login-register payload salt now db later reply user name password at there email h =
      let rows = select (is_taken payload) db.users in
      let (free, answer, e) =
        register_unless-adds (scalar_one_or_none rows) payload salt now db later reply h in
      let user' = new_user crypto settings payload salt now db.next_user_id in
      subst
        (λ d.
          login crypto settings (record { username = name; password = password }) at d
          ≡ err (raised multiple_results_found))
        (sym e)
        (ap (λ found. admit_found crypto settings password (scalar_one_or_none found) at)
            (select-append (goes_by name) db.users (user' ∷ [])
              ∙ ap (λ end. select (goes_by name) db.users ++ end)
                  (select_last (goes_by name) user' (goes_by_email name user' email)))
          ∙ ap (λ found. admit_found crypto settings password found at)
              (scalar_more (select (goes_by name) db.users) user'
                (select-first (goes_by name) db.users user there)))

module _ (crypto : Crypto) (bytes : GivesBytes crypto) (settings : Settings) where
  -- After a registration that succeeds, `get_current_user` answers a request that bears the token of
  -- the reply with the new user until the token expires, while the database stays as the
  -- registration left it. The conditions are that the ids of the users ascend below the next one
  -- and that json.loads reads the token's claims back.
  pub get_current_user-register :
      (payload : UserCreate) (salt : List ℕ) (now later : Time) (db after : Database)
      (reply : TokenOut)
      → Ascending (λ (u : User). u.id) 0 db.users db.next_user_id
      → ReadsBack crypto (claims db.next_user_id payload.username (expires settings) now)
      → timestamp later ≤ timestamp (now + expires settings)
      → register crypto settings payload salt now db ≡ ok (reply, after)
      → get_current_user crypto settings (bearer reply) later after
        ≡ ok (new_user crypto settings payload salt now db.next_user_id)
  unfolding register add_user new_user
  get_current_user-register payload salt now later db after reply v reads in_time h =
      let rows = select (is_taken payload) db.users in
      let (free, answer, e) =
        register_unless-adds crypto settings (scalar_one_or_none rows) payload salt now db after
          reply h in
      let user = new_user crypto settings payload salt now db.next_user_id in
      let found : by_key (λ (u : User). u.id) db.next_user_id (db.users ++ user ∷ []) ≡ some user =
        by_key_new (λ (u : User). u.id) db.users user db.next_user_id v refl in
      subst (λ d. get_current_user crypto settings (bearer reply) later d ≡ ok user) (sym e)
        (subst (λ r. get_current_user crypto settings (bearer r) later (add_user user db) ≡ ok user)
          (sym answer)
          (get_current_user-token_for_user crypto bytes settings user now later (add_user user db)
            found refl reads in_time))
