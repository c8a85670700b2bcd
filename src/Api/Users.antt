-- ===== src/Api/Users.antt =====
-- backend/app/api/v1/users.py: the handlers that change users and their roles. A handler takes the
-- database and returns the new one beside its response; on an error the session is rolled back, so
-- an error carries no database. `uuid.uuid4()` is an argument, and a collision breaks the primary
-- key; so is the hash of the password. Time stamps and the audit log are left out.
pub mod Admins
pub mod Links
pub mod AdminRoles
use know_gate.Prelude.{
  ℕ, ◌+◌, String, Bool, true, false, not, ◌&&◌, ◌||◌, Option, none, some, List, [], ◌∷◌, ◌++◌, map,
  str_eq, if◌then◌else◌, any, ◌==◌,
}
use know_gate.Db.{Database, User, Role, AccessGroup, UserStatus, is_active}
use know_gate.Db.Table.{
  find?, select, update_where, delete_where, sum_by, count_where, has_pair, insert_pair,
  delete_pair,
}
use know_gate.Auth.Permissions.{CurrentUser, holds}
use know_gate.Auth.Permissions
use know_gate.Api.Result.{
  Result, ok, err, api_error, reject, or_raise, require_permission, internal, bad_request,
  not_found, conflict, ◌>>=◌, ◌>>◌,
}

abbrev pub is_some {ℓ} : {A : Type ℓ} → Option A → Bool
is_some none = false
is_some (some a) = true

-- `_user_role_names`: the names of the roles that the pairs give to the user.
unfoldable pub role_names : String → List Role → List (String × String) → List String
role_names user_id roles [] = []
role_names user_id roles ((a, b) ∷ pairs) =
    let rest = role_names user_id roles pairs in
    if str_eq a user_id then map (λ r. r.name) (select (λ r. str_eq r.id b) roles) ++ rest else rest

abbrev pub user_role_names : Database → String → List String
user_role_names db user_id = role_names user_id db.roles db.user_roles

-- The rows that a user has in the join of `user_roles` with the roles named `admin`.
unfoldable pub admin_links : List Role → List (String × String) → String → ℕ
admin_links roles pairs user_id =
    sum_by
      (λ p.
        if str_eq p.0 user_id
        then count_where (λ r. str_eq r.id p.1 && str_eq r.name "admin") roles
        else 0)
      pairs

abbrev pub active_links : List Role → List (String × String) → User → ℕ
active_links roles pairs u = if is_active u.status then admin_links roles pairs u.id else 0

-- The count of active admins other than the user, by the join of users, user_roles and roles.
unfoldable pub other_active_admins : Database → String → ℕ
other_active_admins db user_id =
    sum_by (λ u. if str_eq u.id user_id then 0 else active_links db.roles db.user_roles u) db.users

pub record UserUpdate : Type 0 where
  pub display_name : Option String
  pub language_pref : Option String
  pub status : Option UserStatus

abbrev pub or_keep {ℓ} : {A : Type ℓ} → Option A → A → A
or_keep none old = old
or_keep (some new) old = new

-- `body.status in (SUSPENDED, DELETED)`
abbrev pub deactivates : Option UserStatus → Bool
deactivates none = false
deactivates (some s) = not (is_active s)

abbrev pub apply_update : UserUpdate → User → User
apply_update body u = record u {
  display_name = or_keep body.display_name u.display_name;
  language_pref = or_keep body.language_pref u.language_pref;
  status = or_keep body.status u.status;
}

unfoldable pub update_user : CurrentUser → String → UserUpdate → Database → Result (User × Database)
update_user actor user_id body db = do
  require_permission actor Permissions.manage_users
  u ← or_raise (find? (λ u. str_eq u.id user_id) db.users) (api_error 404 not_found)
  reject
      (deactivates body.status
        && holds "admin" (user_role_names db u.id)
        && other_active_admins db u.id == 0)
      (api_error 409 conflict)
  ok (
    apply_update body u,
    record db { users = update_where (λ v. str_eq v.id u.id) (apply_update body) db.users },
  )

abbrev pub mark_deleted : User → User
mark_deleted u = record u { status = UserStatus.deleted }

unfoldable pub soft_delete_user : CurrentUser → String → Database → Result Database
soft_delete_user actor user_id db = do
  require_permission actor Permissions.manage_users
  u ← or_raise (find? (λ u. str_eq u.id user_id) db.users) (api_error 404 not_found)
  reject (holds "admin" (user_role_names db u.id) && other_active_admins db u.id == 0)
      (api_error 409 conflict)
  ok (record db { users = update_where (λ v. str_eq v.id u.id) mark_deleted db.users })

-- `role_id` and `role_name` of the request; an empty text counts as absent.
pub record RoleAssignRequest : Type 0 where
  pub role_id : Option String
  pub role_name : Option String

abbrev pub given : Option String → Bool
given none = false
given (some s) = not (str_eq s "")

abbrev pub equals : Option String → String → Bool
equals none s = false
equals (some t) s = str_eq s t

abbrev pub resolve_role : RoleAssignRequest → List Role → Option Role
resolve_role body roles =
    if given body.role_id
    then find? (λ r. equals body.role_id r.id) roles
    else find? (λ r. equals body.role_name r.name) roles

-- The response says whether the call was a no-op.
unfoldable pub assign_role :
    CurrentUser → String → RoleAssignRequest → Database → Result (Bool × Database)
assign_role actor user_id body db = do
  require_permission actor Permissions.manage_users
  reject (not (given body.role_id) && not (given body.role_name)) (api_error 400 bad_request)
  role ← or_raise (resolve_role body db.roles) (api_error 404 not_found)
  u ← or_raise (find? (λ u. str_eq u.id user_id) db.users) (api_error 404 not_found)
  if has_pair u.id role.id db.user_roles
      then ok (true, db)
      else ok (false, record db { user_roles = insert_pair u.id role.id db.user_roles })

-- The count of `revoke_role`: active users other than `user_id` with a pair to the role.
unfoldable pub other_active_holders : Database → String → String → ℕ
other_active_holders db role_id user_id =
    sum_by
      (λ u.
        if str_eq u.id user_id
        then 0
        else if is_active u.status
        then count_where (λ p. str_eq p.0 u.id && str_eq p.1 role_id) db.user_roles
        else 0)
      db.users

unfoldable pub revoke_role : CurrentUser → String → String → Database → Result Database
revoke_role actor user_id role_id db = do
  require_permission actor Permissions.manage_users
  role ← or_raise (find? (λ r. str_eq r.id role_id) db.roles) (api_error 404 not_found)
  reject (str_eq role.name "admin" && other_active_holders db role_id user_id == 0)
      (api_error 409 conflict)
  ok (record db { user_roles = delete_pair user_id role_id db.user_roles })

-- Absent `group_ids` are an empty list.
pub record UserInviteRequest : Type 0 where
  pub email : String
  pub display_name : String
  pub roles : List String
  pub group_ids : List String

-- `body.roles or ["member"]`
abbrev pub or_member : List String → List String
or_member [] = "member" ∷ []
or_member (r ∷ rs) = r ∷ rs

-- `set(body.roles) - found_names` is not empty.
unfoldable pub unknown_role : List Role → List String → Bool
unknown_role roles [] = false
unknown_role roles (name ∷ names) =
    not (is_some (find? (λ r. str_eq r.name name) roles)) || unknown_role roles names

-- The loop that adds the rows of `user_roles`; a name given twice breaks the primary key.
unfoldable pub grant_all :
    String → List Role → List String → List (String × String) → Result (List (String × String))
grant_all user_id roles [] pairs = ok pairs
grant_all user_id roles (name ∷ names) pairs = do
  r ← or_raise (find? (λ r. str_eq r.name name) roles) (api_error 500 internal)
  reject (has_pair user_id r.id pairs) (api_error 500 internal)
  grant_all user_id roles names (pairs ++ (user_id, r.id) ∷ [])

abbrev pub joined : String → List String → List AccessGroup → List (String × String)
joined user_id group_ids groups =
    map (λ g. (user_id, g.id)) (select (λ g. any (λ i. str_eq i g.id) group_ids) groups)

unfoldable pub invite_user :
    CurrentUser → String → String → UserInviteRequest → Database → Result (User × Database)
unfolding grant_all
invite_user actor new_id password_hash body db = do
  require_permission actor Permissions.manage_users
  reject (is_some (find? (λ u. str_eq u.email body.email) db.users)) (api_error 409 conflict)
  reject (unknown_role db.roles body.roles) (api_error 400 bad_request)
  reject (is_some (find? (λ u. str_eq u.id new_id) db.users)) (api_error 500 internal)
  pairs ← grant_all new_id db.roles (or_member body.roles) db.user_roles
  let user : User = record {
    id = new_id;
    email = body.email;
    display_name = body.display_name;
    password_hash = some password_hash;
    language_pref = "en";
    status = UserStatus.active;
  }
  ok (
    user,
    record db {
      users = db.users ++ user ∷ [];
      user_roles = pairs;
      user_groups = db.user_groups ++ joined new_id body.group_ids db.access_groups;
    },
  )
