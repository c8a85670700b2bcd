-- ===== src/Auth/Oauth.antt =====
-- backend/app/auth/oauth.py and its endpoints in backend/app/api/v1/auth.py. The provider is not part
-- of the repository: what it answers to the exchange of a code and to the request for the user's
-- data are arguments, and an exception of either ends the callback. So is the settings' say whether a
-- provider has a client id and a secret. The texts that are drawn are arguments too.
pub mod Callback
use know_gate.Prelude.{
  ℕ, ◌≡◌, String, Bool, true, false, not, ◌||◌, Option, none, some, List, [], ◌∷◌, ◌++◌, str_eq,
  ltb, length, if◌then◌else◌,
}
use know_gate.Db.{Database, User, UserStatus, is_active}
use know_gate.Db.Table.{find?}
use know_gate.Auth.Jwt.{Pyjwt}
use know_gate.Auth.Session.{TokenPair, build_jwt_pair}
use know_gate.Auth.Password.{or_text}
use know_gate.Auth.MagicLink.{SignedIn}
use know_gate.Cache.Redis.{Redis}
use know_gate.Cache.Keys.{oauth_state_key}
use know_gate.Cache.Helpers.{Json, pop_oauth_state}
use know_gate.Api.Result.{
  Result, ok, err, api_error, reject, or_raise, internal, bad_request, ◌>>=◌, ◌>>◌,
}
use know_gate.Api.Users.{user_role_names}
use know_gate.Auth.Bootstrap.{granted}

abbrev pub oauth_state_ttl_seconds : ℕ
oauth_state_ttl_seconds = 300

-- `provider in PROVIDER_CONFIGS`
unfoldable pub is_provider : String → Bool
is_provider provider = str_eq provider "google" || str_eq provider "github"

-- `_fetch_user_info`: `email` and `display_name`, with the fallback of the latter on the email.
pub record UserInfo : Type 0 where
  pub email : String
  pub display_name : String

abbrev pub equals : Option String → String → Bool
equals none s = false
equals (some t) s = str_eq t s

-- The first user of all becomes `admin`, each further one `member`.
abbrev pub new_role : Database → String
new_role db = if ltb 0 (length db.users) then "member" else "admin"

-- `local_part` is `email.split("@")[0]`.
unfoldable pub create_user :
    (String → String) → String → String → UserInfo → Database → User × Database
create_user local_part new_id password_hash info db =
    let user : User = record {
      id = new_id;
      email = info.email;
      display_name = or_text (some info.display_name) (local_part info.email);
      password_hash = some password_hash;
      language_pref = "en";
      status = UserStatus.active;
    } in
    (
      user,
      record db {
        users = db.users ++ user ∷ [];
        user_roles =
            granted new_id (find? (λ r. str_eq r.name (new_role db)) db.roles) db.user_roles;
      },
    )

-- The user with the email, who has to be active, or a new one.
unfoldable pub upsert_user :
    (String → String)
    → String
    → String
    → UserInfo
    → Database
    → Option User
    → Option (User × Database)
unfolding create_user
upsert_user local_part new_id password_hash info db none =
    some (create_user local_part new_id password_hash info db)
upsert_user local_part new_id password_hash info db (some user) =
    if is_active user.status then some (user, db) else none

-- The last steps: the answer of `handle_callback` beside the database; `none` is `None`.
unfoldable pub issue :
    (jwt : Pyjwt)
    → ℕ
    → String × String
    → Database
    → Option (User × Database)
    → Option (SignedIn jwt.Token) × Database
issue jwt now jtis db none = (none, db)
issue jwt now jtis db (some (user, db')) = (
  some (record {
    user = user;
    role_names = user_role_names db' user.id;
    tokens = build_jwt_pair jwt now jtis user.id (user_role_names db' user.id);
  }),
  db',
)

-- `fetch` is `_fetch_user_info` of the provider and the access token.
pub record Provider : Type 0 where
  pub exchange_code : String → String → Result (Option String)
  pub fetch_user_info : String → String → Result UserInfo
  pub create_authorization_url : String → String → String
  pub configured : String → Bool

module _ (jwt : Pyjwt) (api : Provider) (local_part : String → String) where
  -- What follows on the access token; an empty one counts as absent.
  unfoldable pub with_token :
      ℕ
      → String × String
      → String
      → String
      → String
      → Database
      → Option String
      → Result (Option (SignedIn jwt.Token) × Database)
  unfolding issue upsert_user
  with_token now jtis new_id password_hash provider db none = ok (none, db)
  with_token now jtis new_id password_hash provider db (some access_token) =
      if str_eq access_token ""
      then ok (none, db)
      else api.fetch_user_info provider access_token >>= λ info. ok (
          if str_eq info.email ""
          then (none, db)
          else issue jwt now jtis db (
              upsert_user local_part new_id password_hash info db
                (find? (λ u. str_eq u.email info.email) db.users)))

  module _ (redis : Redis) (json : Json String) where
    open redis use {Store, setex}

    -- The state is stored as it is, not as JSON.
    unfoldable pub store_oauth_state : ℕ → String → String → Store → Store
    store_oauth_state now provider state s =
        setex now (oauth_state_key state) provider oauth_state_ttl_seconds s

    -- The endpoint turns the exception of an unknown provider into the status 400, and that of one
    -- that is not configured into 503.
    unfoldable pub oauth_start : ℕ → String → String → Store → Result String × Store
    unfolding is_provider store_oauth_state
    oauth_start now provider state s =
        if is_provider provider
        then (
          (if api.configured provider
              then ok (api.create_authorization_url provider state)
              else err (api_error 503 internal)),
          store_oauth_state now provider state s,
        )
        else (err (api_error 400 bad_request), s)

    unfoldable pub handle_callback :
        ℕ
        → String × String
        → String
        → String
        → String
        → String
        → String
        → Database
        → Store
        → Result (Option (SignedIn jwt.Token) × Database) × Store
    unfolding is_provider with_token
    handle_callback now jtis new_id password_hash provider code state db s =
        let (stored, s') = pop_oauth_state redis json now state s in
        let answer =
          if equals stored provider
          then api.exchange_code provider code
            >>= with_token now jtis new_id password_hash provider db
          else ok (none, db) in
        if is_provider provider then (answer, s') else (err (api_error 500 internal), s)

    -- `None` becomes the status 400.
    unfoldable pub oauth_callback :
        ℕ
        → String × String
        → String
        → String
        → String
        → String
        → String
        → Database
        → Store
        → Result (SignedIn jwt.Token × Database) × Store
    unfolding handle_callback
    oauth_callback now jtis new_id password_hash provider code state db s =
        let (answer, s') = handle_callback now jtis new_id password_hash provider code state db s in
        (
          answer >>= (λ r. or_raise r.0 (api_error 400 bad_request) >>= λ signed. ok (signed, r.1)),
          s',
        )
