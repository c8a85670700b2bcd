-- ===== src/Auth/MagicLink.antt =====
-- backend/app/auth/magic_link.py and its endpoint in backend/app/api/v1/auth.py: a link that signs
-- its holder in once. The hash SHA-256, `str.rstrip` and the sending of mail are parameters; the
-- token that `secrets.token_urlsafe` gives is an argument.
use Prim.Native.String.{◌++◌}
use know_gate.Prelude.{
  ℕ, ◌+◌, ◌*◌, ◌≤◌, ◌≡◌, refl, ap, String, Bool, true, false, Option, none, some, List, str_eq, ltb,
  if◌then◌else◌, ◌&&◌, ◌∙◌,
}
use know_gate.Db.{Database, User, is_active}
use know_gate.Db.Table.{find?}
use know_gate.Api.Users.{user_role_names}
use know_gate.Auth.Jwt.{Pyjwt}
use know_gate.Auth.Session.{TokenPair, load_user_with_roles, build_jwt_pair}
use know_gate.Cache.Redis.{Redis, get-setex_same, get-delete_same}
use know_gate.Cache.Keys.{magic_key}

abbrev pub default_magic_link_ttl_minutes : ℕ
default_magic_link_ttl_minutes = 15

pub record Mail : Type 0 where
  pub to : String
  pub link : String
  pub expires_minutes : ℕ

abbrev pub build_magic_link_url : (String → String) → String → String → String
build_magic_link_url rstrip base_url token =
    rstrip base_url ++ "/api/v1/auth/magic-link/verify?token=" ++ token

-- The user, the role names and the tokens that a sign-in returns.
pub record SignedIn (T : Type 0) : Type 0 where
  pub user : User
  pub role_names : List String
  pub tokens : TokenPair T

-- The tokens for the user that the link was made for, who has to be active still.
unfoldable pub sign_in :
    (jwt : Pyjwt) → ℕ → String × String → Option (User × List String) → Option (SignedIn jwt.Token)
sign_in jwt now jtis none = none
sign_in jwt now jtis (some (u, role_names)) = some (record {
  user = u;
  role_names = role_names;
  tokens = build_jwt_pair jwt now jtis u.id role_names;
})

unfoldable pub sign_in_stored :
    (jwt : Pyjwt) → ℕ → String × String → Database → Option String → Option (SignedIn jwt.Token)
unfolding sign_in
sign_in_stored jwt now jtis db none = none
sign_in_stored jwt now jtis db (some user_id) =
    sign_in jwt now jtis (load_user_with_roles db user_id)

sign_in_if :
    (jwt : Pyjwt) (now : ℕ) (jtis : String × String) (db : Database) (user_id : String) (b : Bool)
    → sign_in_stored jwt now jtis db (if b then some user_id else none)
      ≡ (if b then sign_in jwt now jtis (load_user_with_roles db user_id) else none)
unfolding sign_in_stored
sign_in_if jwt now jtis db user_id true = refl
sign_in_if jwt now jtis db user_id false = refl

load_found :
    (db : Database) (user_id : String) (v : User)
    → find? (λ w. str_eq w.id user_id) db.users ≡ some v
    → load_user_with_roles db user_id
      ≡ (if is_active v.status then some (v, user_role_names db user_id) else none)
unfolding load_user_with_roles
load_found db user_id v e = rw (load_user_with_roles, e) refl

sign_in_user :
    (jwt : Pyjwt) (now : ℕ) (jtis : String × String) (db : Database) (user_id : String) (v : User)
    (b : Bool)
    → find? (λ w. str_eq w.id user_id) db.users ≡ some v
    → (if b then sign_in jwt now jtis (load_user_with_roles db user_id) else none) ≡ (
        if b && is_active v.status
        then some (record {
          user = v;
          role_names = user_role_names db user_id;
          tokens = build_jwt_pair jwt now jtis v.id (user_role_names db user_id);
        })
        else none)
unfolding sign_in
sign_in_user jwt now jtis db user_id v false e = refl
sign_in_user jwt now jtis db user_id v true e =
    ap (λ loaded. sign_in jwt now jtis loaded) (load_found db user_id v e)
    ∙ signed (is_active v.status)
  where
    signed :
        (b : Bool)
        → sign_in jwt now jtis (if b then some (v, user_role_names db user_id) else none) ≡ (
            if b
            then some (record {
              user = v;
              role_names = user_role_names db user_id;
              tokens = build_jwt_pair jwt now jtis v.id (user_role_names db user_id);
            })
            else none)
    signed true = refl
    signed false = refl

module _ (redis : Redis) (sha256 : String → String) where
  open redis use {Store}

  -- A link goes out for an active user only; the result, which the endpoint drops, is what
  -- `send_magic_link_email` returns, else true.
  unfoldable pub send_link :
      (Mail → Bool)
      → (String → String)
      → ℕ
      → String
      → String
      → String
      → Option User
      → Store
      → Bool × Store
  send_link send rstrip now email base_url token none s = (true, s)
  send_link send rstrip now email base_url token (some user) s =
      if is_active user.status
      then (
        send (record {
          to = email;
          link = build_magic_link_url rstrip base_url token;
          expires_minutes = default_magic_link_ttl_minutes;
        }),
        redis.setex now (magic_key (sha256 token)) user.id (default_magic_link_ttl_minutes * 60) s,
      )
      else (true, s)

  unfoldable pub request_magic_link :
      (Mail → Bool)
      → (String → String)
      → ℕ
      → String
      → String
      → String
      → Database
      → Store
      → Bool × Store
  unfolding send_link
  request_magic_link send rstrip now email base_url token db s =
      send_link send rstrip now email base_url token (find? (λ u. str_eq u.email email) db.users) s

  -- The get and the delete are one transaction.
  unfoldable pub verify_magic_link :
      (jwt : Pyjwt)
      → ℕ
      → String × String
      → String
      → Database
      → Store
      → Option (SignedIn jwt.Token) × Store
  unfolding sign_in_stored
  verify_magic_link jwt now jtis token db s = (
    sign_in_stored jwt now jtis db (redis.get now (magic_key (sha256 token)) s),
    redis.delete now (magic_key (sha256 token)) s,
  )

  -- A link that was sent to an active user signs that user in, as the table has it then, with its roles
  -- and a new pair of tokens, if it is active still and 15 minutes have not passed; else, and if the
  -- link is used a second time, at any later time, it signs in nobody.
  pub verify-request :
      (jwt : Pyjwt) (send : Mail → Bool) (rstrip : String → String) (now later last : ℕ)
      (email base_url token : String) (jtis jtis' : String × String) (db db' db'' : Database)
      (u v : User) (s : Store)
      → find? (λ w. str_eq w.email email) db.users ≡ some u
      → is_active u.status ≡ true
      → find? (λ w. str_eq w.id u.id) db'.users ≡ some v
      → now ≤ later
      → later ≤ last
      → let sent = (request_magic_link send rstrip now email base_url token db s).1 in
        ((verify_magic_link jwt later jtis token db' sent).0 ≡ (
          if ltb later (now + 900) && is_active v.status
          then some (record {
            user = v;
            role_names = user_role_names db' u.id;
            tokens = build_jwt_pair jwt later jtis v.id (user_role_names db' u.id);
          })
          else none))
        × ((verify_magic_link jwt last jtis' token db''
              (verify_magic_link jwt later jtis token db' sent).1).0
            ≡ none)
  unfolding request_magic_link verify_magic_link sign_in_stored
  verify-request jwt send rstrip now later last email base_url token jtis jtis' db db' db'' u v s e
        a there le last_le =
      rw (e, a)
        (
          rw (get-setex_same redis now later (magic_key (sha256 token)) u.id 900 s le) (
              sign_in_if jwt later jtis db' u.id (ltb later (now + 900))
              ∙ sign_in_user jwt later jtis db' u.id v (ltb later (now + 900)) there),
          rw
              (get-delete_same redis later last (magic_key (sha256 token))
                (redis.setex now (magic_key (sha256 token)) u.id 900 s) last_le)
              refl,
        )
