-- ===== src/Auth/Bootstrap.antt =====
-- `register` of backend/app/api/v1/auth.py: the first user, who becomes the administrator.
use know_gate.Prelude.{
  ℕ, ◌<◌, ◌≡◌, refl, String, true, ◌&&◌, Option, none, some, List, [], ◌∷◌, ◌++◌, str_eq, eq_iff,
  eq_refl, ltb, if◌then◌else◌, arith, length,
}
use know_gate.Prelude.Dict.{Distinct}
use know_gate.Db.{Database, User, Role, UserStatus, is_active}
use know_gate.Db.Table.{find?, count_where, sum_by, sum_by-append}
use know_gate.Auth.Permissions.{CurrentUser}
use know_gate.Auth.Jwt.{Pyjwt}
use know_gate.Auth.Session.{TokenPair, build_jwt_pair}
use know_gate.Auth.Password.{PasswordHasher, hash_password}
use know_gate.Api.Result.{Result, ok, err, api_error, reject, forbidden, conflict, ◌>>=◌, ◌>>◌}
use know_gate.Api.Result.Ensures.{Ensures, Ensures-at, Ensures-reject, returns}
use know_gate.Api.Users.{is_some, active_links, admin_links}
use know_gate.Api.Users.Admins.{active_admins}
use know_gate.Api.Users.Links.{role_ids}
use know_gate.Api.Server.{Request, serve}
use know_gate.Api.Server.Lockout.{serve-HasAdmin}
use know_gate.Api.Server.Lockout.Users.{HasAdmin}

pub record RegisterRequest : Type 0 where
  pub email : String
  pub display_name : String
  pub password : String

-- The pair with the role that is found, if it is.
abbrev pub granted : String → Option Role → List (String × String) → List (String × String)
granted user_id none pairs = pairs
granted user_id (some role) pairs = pairs ++ (user_id, role.id) ∷ []

unfoldable pub register :
    (jwt : Pyjwt)
    → PasswordHasher
    → ℕ
    → String × String
    → String
    → String
    → RegisterRequest
    → Database
    → Result (User × TokenPair jwt.Token × Database)
register jwt hasher now jtis new_id salt body db = do
  reject (ltb 0 (length db.users)) (api_error 403 forbidden)
  reject (is_some (find? (λ u. str_eq u.email body.email) db.users)) (api_error 409 conflict)
  let user : User = record {
    id = new_id;
    email = body.email;
    display_name = body.display_name;
    password_hash = some (hash_password hasher salt body.password);
    language_pref = "en";
    status = UserStatus.active;
  }
  ok (
    user,
    build_jwt_pair jwt now jtis new_id ("admin" ∷ []),
    record db {
      users = db.users ++ user ∷ [];
      user_roles = granted new_id (find? (λ r. str_eq r.name "admin") db.roles) db.user_roles;
    },
  )

some_user : (w : User → ℕ) (users : List User) → 0 < sum_by w users → ltb 0 (length users) ≡ true
unfolding sum_by
some_user w [] h = ground (arith, h)
some_user w (u ∷ users) h = ground arith

-- Closed as long as there is an active administrator.
closed :
    (jwt : Pyjwt) (hasher : PasswordHasher) (now : ℕ) (jtis : String × String)
    (new_id salt : String) (body : RegisterRequest) (db : Database)
    → HasAdmin db
    → register jwt hasher now jtis new_id salt body db ≡ err (api_error 403 forbidden)
unfolding register reject ◌>>=◌ active_admins
closed jwt hasher now jtis new_id salt body db h =
    rw (some_user (active_links db.roles db.user_roles) db.users h.present) refl

named-pos :
    (role : Role) (roles : List Role)
    → find? (λ r. str_eq r.name "admin") roles ≡ some role
    → 0 < count_where (λ r. str_eq r.id role.id && str_eq r.name "admin") roles
unfolding find? count_where
named-pos role [] e = cc e
named-pos role (r ∷ roles) e =
    ground (arith, eq_refl role.id, eq_iff r.id role.id, named-pos role roles)

link-pos :
    (uid : String) (role : Role) (roles : List Role) (pairs : List (String × String))
    → find? (λ r. str_eq r.name "admin") roles ≡ some role
    → 0 < admin_links roles (pairs ++ (uid, role.id) ∷ []) uid
unfolding admin_links sum_by
link-pos uid role roles pairs e = ground (
  arith,
  eq_refl uid,
  named-pos role roles e,
  sum_by-append
      (λ p.
        if str_eq p.0 uid
        then count_where (λ r. str_eq r.id p.1 && str_eq r.name "admin") roles
        else 0)
      pairs ((uid, role.id) ∷ []),
)

active-pos :
    (u : User) (role : Role) (roles : List Role) (pairs : List (String × String))
    → find? (λ r. str_eq r.name "admin") roles ≡ some role
    → is_active u.status ≡ true
    → 0 < active_links roles (pairs ++ (u.id, role.id) ∷ []) u
active-pos u role roles pairs e a = rw a (link-pos u.id role roles pairs e)

first_admin :
    (u : User) (users : List User) (role : Role) (roles : List Role)
    (pairs : List (String × String))
    → find? (λ r. str_eq r.name "admin") roles ≡ some role
    → is_active u.status ≡ true
    → 0 < sum_by (active_links roles (pairs ++ (u.id, role.id) ∷ [])) (users ++ u ∷ [])
unfolding sum_by
first_admin u users role roles pairs e a =
    let w = active_links roles (pairs ++ (u.id, role.id) ∷ []) in
    omega (arith, sum_by-append w users (u ∷ []), active-pos u role roles pairs e a)

register-HasAdmin :
    (jwt : Pyjwt) (hasher : PasswordHasher) (now : ℕ) (jtis : String × String)
    (new_id salt : String) (body : RegisterRequest) (db : Database) (role : Role)
    → Distinct (role_ids db.roles)
    → find? (λ r. str_eq r.name "admin") db.roles ≡ some role
    → Ensures (λ r. HasAdmin r.2) (register jwt hasher now jtis new_id salt body db)
unfolding register active_admins
register-HasAdmin jwt hasher now jtis new_id salt body db role d e = Ensures-reject _ _ _ λ _.
    Ensures-reject _ _ _ λ _. returns (record {
      distinct = d;
      present = rw e (first_admin _ db.users role db.roles db.user_roles e refl);
    })

-- Where the role `admin` is set up, the first registration makes an administrator, and after it no
-- registration succeeds any more, whatever administration requests are served in between: it is
-- refused with the status 403.
pub register-once :
    (jwt : Pyjwt) (hasher : PasswordHasher) (now later : ℕ) (jtis jtis' : String × String)
    (new_id new_id' salt salt' : String) (body body' : RegisterRequest) (db : Database)
    (role : Role) (r : User × TokenPair jwt.Token × Database)
    (requests : List (CurrentUser × Request))
    → Distinct (role_ids db.roles)
    → find? (λ r. str_eq r.name "admin") db.roles ≡ some role
    → register jwt hasher now jtis new_id salt body db ≡ ok r
    → HasAdmin r.2
      × (register jwt hasher later jtis' new_id' salt' body' (serve requests r.2)
          ≡ err (api_error 403 forbidden))
register-once jwt hasher now later jtis jtis' new_id new_id' salt salt' body body' db role r
      requests d e h =
    let a = Ensures-at h (register-HasAdmin jwt hasher now jtis new_id salt body db role d e) in
    (
      a,
      closed jwt hasher later jtis' new_id' salt' body' (serve requests r.2)
          (serve-HasAdmin requests r.2 a),
    )
