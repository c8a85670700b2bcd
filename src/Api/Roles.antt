-- ===== src/Api/Roles.antt =====
-- backend/app/api/v1/roles.py: the handlers that change roles. A role row that a request changes and
-- then rejects is rolled back, so an error carries no database.
use know_gate.Prelude.{
  String, Bool, false, not, ◌&&◌, ◌||◌, Option, none, some, List, [], ◌∷◌, ◌++◌, str_eq, any, ltb,
}
use know_gate.Db.{Database, Role}
use know_gate.Db.Table.{find?, update_where, delete_where, count_where}
use know_gate.Auth.Permissions
use know_gate.Auth.Permissions.{CurrentUser}
use know_gate.Api.Result.{
  Result, ok, api_error, reject, or_raise, require_permission, internal, bad_request, not_found,
  conflict, ◌>>=◌, ◌>>◌,
}
use know_gate.Api.Users.{is_some, or_keep}

abbrev pub is_static : String → Bool
is_static name = str_eq name "admin" || str_eq name "editor" || str_eq name "member"

-- The values of the enum `Permission`.
abbrev pub known_permissions : List String
known_permissions =
    "view_doc" ∷ "edit_doc_metadata" ∷ "delete_doc" ∷ "manage_users" ∷ "manage_roles"
    ∷ "manage_groups" ∷ "manage_sources" ∷ "manage_settings" ∷ "invite_user" ∷ "view_audit_log" ∷ []

-- `_validate_permissions` raises.
unfoldable pub has_unknown_permission : List String → Bool
has_unknown_permission perms = any (λ p. not (any (λ k. str_eq k p) known_permissions)) perms

pub record RoleCreate : Type 0 where
  pub name : String
  pub description : Option String
  pub permissions : List String

unfoldable pub create_role : CurrentUser → String → RoleCreate → Database → Result (Role × Database)
unfolding has_unknown_permission
create_role actor new_id body db = do
  require_permission actor Permissions.manage_roles
  reject (has_unknown_permission body.permissions) (api_error 400 bad_request)
  reject (is_some (find? (λ r. str_eq r.name body.name) db.roles)) (api_error 409 conflict)
  reject (is_some (find? (λ r. str_eq r.id new_id) db.roles)) (api_error 500 internal)
  let role : Role = record {
    id = new_id;
    name = body.name;
    description = body.description;
    permissions = body.permissions;
  }
  ok (role, record db { roles = db.roles ++ role ∷ [] })

pub record RoleUpdate : Type 0 where
  pub name : Option String
  pub description : Option String
  pub permissions : Option (List String)

-- `body.name is not None and body.name != role.name`
abbrev pub renames : Option String → String → Bool
renames none old = false
renames (some new) old = not (str_eq new old)

abbrev pub taken : Option String → Role → List Role → Bool
taken none role roles = false
taken (some new) role roles =
    is_some (find? (λ r. str_eq r.name new && not (str_eq r.id role.id)) roles)

abbrev pub bad_permissions : Option (List String) → Bool
bad_permissions none = false
bad_permissions (some perms) = has_unknown_permission perms

abbrev pub keep_some {ℓ} : {A : Type ℓ} → Option A → Option A → Option A
keep_some none old = old
keep_some (some new) old = some new

abbrev pub apply_role_update : RoleUpdate → Role → Role
apply_role_update body role = record role {
  name = or_keep body.name role.name;
  description = keep_some body.description role.description;
  permissions = or_keep body.permissions role.permissions;
}

unfoldable pub update_role : CurrentUser → String → RoleUpdate → Database → Result (Role × Database)
unfolding has_unknown_permission
update_role actor role_id body db = do
  require_permission actor Permissions.manage_roles
  role ← or_raise (find? (λ r. str_eq r.id role_id) db.roles) (api_error 404 not_found)
  reject (renames body.name role.name && is_static role.name) (api_error 409 conflict)
  reject (renames body.name role.name && taken body.name role db.roles) (api_error 409 conflict)
  reject (bad_permissions body.permissions) (api_error 400 bad_request)
  ok (
    apply_role_update body role,
    record db { roles = update_where (λ r. str_eq r.id role.id) (apply_role_update body) db.roles },
  )

unfoldable pub delete_role : CurrentUser → String → Database → Result Database
delete_role actor role_id db = do
  require_permission actor Permissions.manage_roles
  role ← or_raise (find? (λ r. str_eq r.id role_id) db.roles) (api_error 404 not_found)
  reject (ltb 0 (count_where (λ p. str_eq p.1 role.id) db.user_roles)) (api_error 409 conflict)
  ok (record db { roles = delete_where (λ r. str_eq r.id role.id) db.roles })
