-- ===== src/Auth/Session.antt =====
-- The tokens of backend/app/api/v1/auth.py and `get_current_user` of
-- backend/app/auth/permissions.py: who is let in, how a pair of tokens is renewed, and how a token
-- is revoked. The store of Redis is passed along, and the database is read.
pub mod Callers
pub mod Revocation
pub mod Rotation
use know_gate.Prelude.{
  ℕ, ◌-◌, String, Bool, true, false, not, ◌&&◌, ◌||◌, Option, none, some, List, [], ◌∷◌, str_eq,
  if◌then◌else◌, ◌==◌, ◌*◌,
}
use know_gate.Db.{Database, User, UserStatus, is_active}
use know_gate.Db.Table.{find?}
use know_gate.Auth.Permissions.{CurrentUser}
use know_gate.Auth.Jwt.{
  Pyjwt, Claims, Verified, verified, token_error, verify_token, create_access_token,
  create_refresh_token,
}
use know_gate.Cache.Redis.{Redis}
use know_gate.Cache.Helpers.{Json, is_jti_revoked, revoke_jti}
use know_gate.Api.Result.{Result, ok, err, api_error, reject, or_raise, unauthorized, ◌>>=◌, ◌>>◌}
use know_gate.Api.Users.{user_role_names}

-- `HTTPAuthorizationCredentials`
pub record Credentials (T : Type 0) : Type 0 where
  pub scheme : String
  pub credentials : T

-- What `get_current_user` returns.
pub record Caller : Type 0 where
  pub user : CurrentUser
  pub jti : String
  pub exp : ℕ

pub record TokenPair (T : Type 0) : Type 0 where
  pub access_token : T
  pub refresh_token : T
  pub expires_in : ℕ

-- `claims.get("roles", [])`
abbrev pub or_empty : Option (List String) → List String
or_empty none = []
or_empty (some roles) = roles

-- A token that is refused ends the handler with the status 401.
unfoldable pub or_unauthorized : Verified → Result Claims
or_unauthorized (verified claims) = ok claims
or_unauthorized (token_error e) = err (api_error 401 unauthorized)

-- `credentials is None or credentials.scheme.lower() != "bearer"`, over `str.lower`
unfoldable pub bearer : {T : Type 0} → (String → String) → Option (Credentials T) → Option T
bearer lower none = none
bearer lower (some c) = if str_eq (lower c.scheme) "bearer" then some c.credentials else none

-- `_load_user_with_roles`
unfoldable pub load_user_with_roles : Database → String → Option (User × List String)
load_user_with_roles db user_id = elim (find? (λ u. str_eq u.id user_id) db.users) [
  | none ↦ none
  | some u ↦ if is_active u.status then some (u, user_role_names db user_id) else none
]

-- `_build_jwt_pair`, with the two `jti` drawn
unfoldable pub build_jwt_pair :
    (jwt : Pyjwt) → ℕ → String × String → String → List String → TokenPair jwt.Token
unfolding create_access_token create_refresh_token
build_jwt_pair jwt now jtis user_id roles = record {
  access_token = (create_access_token jwt now jtis.0 user_id roles).0;
  refresh_token = (create_refresh_token jwt now jtis.1 user_id).0;
  expires_in = 15 * 60;
}

module _ (redis : Redis) (json : Json Bool) where
  open redis use {Store}

  -- A token is revoked until it expires: `ttl = max(0, exp - now)`, and nothing for a `ttl` of 0.
  unfoldable pub revoke_rest : ℕ → String → ℕ → Store → Store
  revoke_rest now jti exp s =
      if str_eq jti "" || exp == 0 || exp - now == 0
      then s
      else revoke_jti redis json now jti (exp - now) s

  unfoldable pub logout : ℕ → Caller → Store → Store
  unfolding revoke_rest
  logout now caller s = revoke_rest now caller.jti caller.exp s

module _ (redis : Redis) (jwt : Pyjwt) (json : Json Bool) where
  open redis use {Store}
  open jwt use {Token}

  unfoldable pub get_current_user :
      (String → String) → ℕ → Option (Credentials Token) → Store → Result Caller
  unfolding bearer or_unauthorized
  get_current_user lower now credentials s = do
    token ← or_raise (bearer lower credentials) (api_error 401 unauthorized)
    claims ← or_unauthorized (verify_token jwt now token "access")
    reject (not (str_eq claims.jti "") && is_jti_revoked redis json now claims.jti s)
        (api_error 401 unauthorized)
    ok (record {
      user = record { id = claims.sub; roles = or_empty claims.roles };
      jti = claims.jti;
      exp = claims.exp;
    })

  unfoldable pub refresh :
      ℕ → String × String → Token → Database → Store → Result (TokenPair Token × Store)
  unfolding or_unauthorized
  refresh now jtis token db s = do
    claims ← or_unauthorized (verify_token jwt now token "refresh")
    loaded ← or_raise (load_user_with_roles db claims.sub) (api_error 401 unauthorized)
    ok (
      build_jwt_pair jwt now jtis loaded.0.id loaded.1,
      revoke_rest redis json now claims.jti claims.exp s,
    )
