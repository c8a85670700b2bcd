-- ===== src/Auth/Password.antt =====
-- The sign-in by password of backend/app/api/v1/auth.py, over backend/app/auth/password.py. The
-- library argon2 is an interface; a salt is an argument of its hash. The limit of attempts per
-- address is that of backend/app/cache/helpers.py.
pub mod Login
use Prim.Native.String.{◌++◌}
use know_gate.Prelude.{
  ℕ, ◌≡◌, String, Bool, true, false, not, Option, none, some, List, str_eq, if◌then◌else◌,
}
use know_gate.Db.{Database, User, is_active}
use know_gate.Db.Table.{find?, update_where}
use know_gate.Auth.Jwt.{Pyjwt}
use know_gate.Auth.Session.{TokenPair, build_jwt_pair}
use know_gate.Cache.RateLimit.{SortedSets, check_ip_rate_limit}
use know_gate.Api.Result.{
  Result, ok, err, api_error, reject, or_raise, unauthorized, rate_limited, internal, ◌>>=◌, ◌>>◌,
}
use know_gate.Api.Users.{user_role_names}

-- What `_hasher.verify` ends in, where the two exceptions that the code catches are one case.
pub data Verification : Type 0 where
  matches mismatch : Verification

pub record PasswordHasher : Type 0 where
  pub hash : String → String → String
  pub verify : String → String → Verification
  -- `none` is InvalidHash
  pub check_needs_rehash : String → Option Bool
  pub verify-hash : (salt password : String) → verify (hash salt password) password ≡ matches

abbrev pub hash_password : PasswordHasher → String → String → String
hash_password hasher salt plaintext = hasher.hash salt plaintext

abbrev pub is_match : Verification → Bool
is_match matches = true
is_match mismatch = false

unfoldable pub verify_password : PasswordHasher → String → String → Bool
verify_password hasher plaintext encoded_hash = is_match (hasher.verify encoded_hash plaintext)

abbrev pub or_true : Option Bool → Bool
or_true none = true
or_true (some b) = b

unfoldable pub needs_rehash : PasswordHasher → String → Bool
needs_rehash hasher encoded_hash = or_true (hasher.check_needs_rehash encoded_hash)

-- `a or b`, of which the empty text counts as absent
abbrev pub or_text : Option String → String → String
or_text none b = b
or_text (some a) b = if str_eq a "" then b else a

pub record LoginRequest : Type 0 where
  pub email : String
  pub password : String

-- The address that the middleware found, and that of the connection.
pub record Addresses : Type 0 where
  pub client_ip : Option String
  pub host : Option String

-- The active user that the email is of.
unfoldable pub active_user : Option User → Option User
active_user none = none
active_user (some u) = if is_active u.status then some u else none

-- The hash of the user is written anew if its parameters are outdated.
unfoldable pub rehash : PasswordHasher → String → String → User → String → Database → Database
rehash hasher salt password user encoded_hash db =
    if needs_rehash hasher encoded_hash
    then record db {
      users =
          update_where (λ v. str_eq v.id user.id)
            (λ v. record v { password_hash = some (hash_password hasher salt password) }) db.users;
    }
    else db

module _ (jwt : Pyjwt) (hasher : PasswordHasher) where
  open jwt use {Token}

  -- The part after the limit. The comparison for an inactive user has no effect but its time. A user
  -- without a hash makes argon2 raise an error that the code does not catch.
  unfoldable pub authenticate :
      ℕ
      → String × String
      → String
      → LoginRequest
      → Database
      → Result (User × List String × TokenPair Token × Database)
  unfolding rehash active_user verify_password
  authenticate now jtis salt body db = do
    user ←
        or_raise (active_user (find? (λ u. str_eq u.email body.email) db.users))
          (api_error 401 unauthorized)
    encoded_hash ← or_raise user.password_hash (api_error 500 internal)
    reject (not (verify_password hasher body.password encoded_hash)) (api_error 401 unauthorized)
    let role_names = user_role_names db user.id
    ok (
      user,
      role_names,
      build_jwt_pair jwt now jtis user.id role_names,
      rehash hasher salt body.password user encoded_hash db,
    )

  module _ (redis : SortedSets) (second : ℕ) (member show : ℕ → String)
      (email_hash : String → String) where
    open redis use {Store}

    -- `email_hash` is the first 16 digits of the SHA-256 of the email in lower case. An attempt counts
    -- whatever becomes of it. `tick` is the time on the clock of the limit.
    unfoldable pub login :
        ℕ
        → ℕ
        → ℕ
        → String × String
        → String
        → Addresses
        → LoginRequest
        → Database
        → Store
        → Result (User × List String × TokenPair Token × Database) × Store
    unfolding authenticate check_ip_rate_limit
    login limit tick now jtis salt request body db s =
        let ip = or_text request.client_ip (or_text request.host "unknown") in
        let (count, allowed, s') =
          check_ip_rate_limit redis second member show tick (ip ++ ":" ++ email_hash body.email) 900
            limit s in
        (
          (reject (not allowed) (api_error 429 rate_limited) >> authenticate now jtis salt body db),
          s',
        )
