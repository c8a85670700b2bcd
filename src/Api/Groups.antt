-- ===== src/Api/Groups.antt =====
-- backend/app/api/v1/groups.py: the handlers that change access groups and their members.
use know_gate.Prelude.{
  ℕ, String, Bool, false, not, ◌&&◌, ◌||◌, Option, none, some, List, [], ◌∷◌, ◌++◌, str_eq, ltb,
}
use know_gate.Db.{Database, AccessGroup}
use know_gate.Db.Table.{find?, update_where, delete_where, count_where, insert_pair, delete_pair}
use know_gate.Auth.Permissions
use know_gate.Auth.Permissions.{CurrentUser}
use know_gate.Api.Result.{
  Result, ok, api_error, reject, or_raise, require_permission, internal, not_found, conflict, ◌>>=◌,
  ◌>>◌,
}
use know_gate.Api.Users.{is_some, or_keep}
use know_gate.Api.Roles.{renames, keep_some}

pub record GroupCreate : Type 0 where
  pub name : String
  pub description : Option String

unfoldable pub create_group :
    CurrentUser → String → GroupCreate → Database → Result (AccessGroup × Database)
create_group actor new_id body db = do
  require_permission actor Permissions.manage_groups
  reject (is_some (find? (λ g. str_eq g.name body.name) db.access_groups)) (api_error 409 conflict)
  reject (is_some (find? (λ g. str_eq g.id new_id) db.access_groups)) (api_error 500 internal)
  let group : AccessGroup = record {
    id = new_id;
    name = body.name;
    description = body.description;
    created_by = actor.id;
  }
  ok (group, record db { access_groups = db.access_groups ++ group ∷ [] })

pub record GroupUpdate : Type 0 where
  pub name : Option String
  pub description : Option String

abbrev pub taken : Option String → AccessGroup → List AccessGroup → Bool
taken none group groups = false
taken (some new) group groups =
    is_some (find? (λ g. str_eq g.name new && not (str_eq g.id group.id)) groups)

abbrev pub apply_group_update : GroupUpdate → AccessGroup → AccessGroup
apply_group_update body group = record group {
  name = or_keep body.name group.name;
  description = keep_some body.description group.description;
}

unfoldable pub update_group :
    CurrentUser → String → GroupUpdate → Database → Result (AccessGroup × Database)
update_group actor group_id body db = do
  require_permission actor Permissions.manage_groups
  g ← or_raise (find? (λ g. str_eq g.id group_id) db.access_groups) (api_error 404 not_found)
  reject (renames body.name g.name && taken body.name g db.access_groups) (api_error 409 conflict)
  ok (
    apply_group_update body g,
    record db {
      access_groups =
          update_where (λ h. str_eq h.id g.id) (apply_group_update body) db.access_groups;
    },
  )

-- The counts of `delete_group`.
abbrev pub members : String → List (String × String) → ℕ
members group_id pairs = count_where (λ p. str_eq p.1 group_id) pairs

unfoldable pub delete_group : CurrentUser → String → Database → Result Database
delete_group actor group_id db = do
  require_permission actor Permissions.manage_groups
  g ← or_raise (find? (λ g. str_eq g.id group_id) db.access_groups) (api_error 404 not_found)
  reject (ltb 0 (members g.id db.user_groups) || ltb 0 (members g.id db.document_groups))
      (api_error 409 conflict)
  ok (record db { access_groups = delete_where (λ h. str_eq h.id g.id) db.access_groups })

unfoldable pub add_user_to_group : CurrentUser → String → String → Database → Result Database
add_user_to_group actor group_id user_id db = do
  require_permission actor Permissions.manage_groups
  g ← or_raise (find? (λ g. str_eq g.id group_id) db.access_groups) (api_error 404 not_found)
  u ← or_raise (find? (λ u. str_eq u.id user_id) db.users) (api_error 404 not_found)
  ok (record db { user_groups = insert_pair u.id g.id db.user_groups })

unfoldable pub remove_user_from_group : CurrentUser → String → String → Database → Result Database
remove_user_from_group actor group_id user_id db = do
  require_permission actor Permissions.manage_groups
  ok (record db { user_groups = delete_pair user_id group_id db.user_groups })

unfoldable pub add_document_to_group : CurrentUser → String → String → Database → Result Database
add_document_to_group actor group_id document_id db = do
  require_permission actor Permissions.manage_groups
  g ← or_raise (find? (λ g. str_eq g.id group_id) db.access_groups) (api_error 404 not_found)
  d ← or_raise (find? (λ d. str_eq d.id document_id) db.documents) (api_error 404 not_found)
  ok (record db { document_groups = insert_pair d.id g.id db.document_groups })

unfoldable pub remove_document_from_group :
    CurrentUser → String → String → Database → Result Database
remove_document_from_group actor group_id doc_id db = do
  require_permission actor Permissions.manage_groups
  ok (record db { document_groups = delete_pair doc_id group_id db.document_groups })
