-- ===== src/Auth/Password/Login.antt =====
-- Who can sign in by a password, and what everybody else is told.
use know_gate.Prelude.{ℕ, ◌≡◌, ◌⊎◌, String, true, some, List, str_eq}
use know_gate.Db.{Database, User, is_active}
use know_gate.Db.Table.{find?}
use know_gate.Auth.Jwt.{Pyjwt}
use know_gate.Auth.Session.{TokenPair, build_jwt_pair}
use know_gate.Auth.Password.{PasswordHasher, LoginRequest, verify_password, rehash}
use know_gate.Api.Result.{Result, ok, err, api_error, unauthorized}
use know_gate.Api.Users.{user_role_names}

-- An active user has the email, and its hash fits the password.
pub record CanSignIn (hasher : PasswordHasher) (body : LoginRequest) (db : Database) : Type 0 where
  pub user : User
  pub encoded_hash : String
  pub found : find? (λ u. str_eq u.email body.email) db.users ≡ some user
  pub is_up : is_active user.status ≡ true
  pub hashed : user.password_hash ≡ some encoded_hash
  pub fits : verify_password hasher body.password encoded_hash ≡ true

abbrev pub HasHash : User → Type 0
HasHash u = (h : String) × (u.password_hash ≡ some h)

module _ (jwt : Pyjwt) (hasher : PasswordHasher) (now : ℕ) (jtis : String × String) (salt : String)
    (body : LoginRequest) (db : Database) where
  abbrev pub signed_in :
      User → String → Result (User × List String × TokenPair jwt.Token × Database)
  signed_in u encoded_hash = ok (
    u,
    user_role_names db u.id,
    build_jwt_pair jwt now jtis u.id (user_role_names db u.id),
    rehash hasher salt body.password u encoded_hash db,
  )

  -- With the right password for an active user, what a sign-in answers; else that it is refused.
  abbrev pub Decided : Result (User × List String × TokenPair jwt.Token × Database) → Type 0
  Decided r =
      ((c : CanSignIn hasher body db) × (r ≡ signed_in c.user c.encoded_hash))
      ⊎ ((¬ CanSignIn hasher body db) × (r ≡ err (api_error 401 unauthorized)))
