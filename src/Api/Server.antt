-- ===== src/Api/Server.antt =====
-- The administration endpoints of backend/app/api/v1 together: a request is a call of one of their
-- handlers by an authenticated caller, and the server answers requests one after the other. A
-- request that raises leaves the database as it was.
pub mod Lockout
use know_gate.Prelude.{String, Bool, List, [], ◌∷◌}
use know_gate.Db.{Database}
use know_gate.Auth.Permissions.{CurrentUser}
use know_gate.Api.Result.{Result, ok, err, ◌>>=◌}
use know_gate.Api.Users
use know_gate.Api.Users.{UserUpdate, RoleAssignRequest, UserInviteRequest}
use know_gate.Api.Roles
use know_gate.Api.Roles.{RoleCreate, RoleUpdate}
use know_gate.Api.Groups
use know_gate.Api.Groups.{GroupCreate, GroupUpdate}
use know_gate.Api.Documents
use know_gate.Api.Documents.{DocumentUpdate}

pub data Request : Type 0 where
  invite_user : String → String → UserInviteRequest → Request
  update_user : String → UserUpdate → Request
  soft_delete_user : String → Request
  assign_role : String → RoleAssignRequest → Request
  revoke_role : String → String → Request
  create_role : String → RoleCreate → Request
  update_role : String → RoleUpdate → Request
  delete_role : String → Request
  create_group : String → GroupCreate → Request
  update_group : String → GroupUpdate → Request
  delete_group : String → Request
  add_user_to_group : String → String → Request
  remove_user_from_group : String → String → Request
  add_document_to_group : String → String → Request
  remove_document_from_group : String → String → Request
  update_document : String → DocumentUpdate → Request
  delete_document : String → Request

abbrev second : {A : Type 0} → Result (A × Database) → Result Database
second r = r >>= λ p. ok p.1

unfoldable pub handle : CurrentUser → Request → Database → Result Database
handle user (invite_user new_id hash body) db = second (Users.invite_user user new_id hash body db)
handle user (update_user user_id body) db = second (Users.update_user user user_id body db)
handle user (soft_delete_user user_id) db = Users.soft_delete_user user user_id db
handle user (assign_role user_id body) db = second (Users.assign_role user user_id body db)
handle user (revoke_role user_id role_id) db = Users.revoke_role user user_id role_id db
handle user (create_role new_id body) db = second (Roles.create_role user new_id body db)
handle user (update_role role_id body) db = second (Roles.update_role user role_id body db)
handle user (delete_role role_id) db = Roles.delete_role user role_id db
handle user (create_group new_id body) db = second (Groups.create_group user new_id body db)
handle user (update_group group_id body) db = second (Groups.update_group user group_id body db)
handle user (delete_group group_id) db = Groups.delete_group user group_id db
handle user (add_user_to_group group_id user_id) db =
    Groups.add_user_to_group user group_id user_id db
handle user (remove_user_from_group group_id user_id) db =
    Groups.remove_user_from_group user group_id user_id db
handle user (add_document_to_group group_id doc_id) db =
    Groups.add_document_to_group user group_id doc_id db
handle user (remove_document_from_group group_id doc_id) db =
    Groups.remove_document_from_group user group_id doc_id db
handle user (update_document doc_id body) db =
    second (Documents.update_document user doc_id body db)
handle user (delete_document doc_id) db = Documents.delete_document user doc_id db

abbrev pub after : Result Database → Database → Database
after (ok db') db = db'
after (err e) db = db

unfoldable pub serve : List (CurrentUser × Request) → Database → Database
serve [] db = db
serve ((user, request) ∷ requests) db = serve requests (after (handle user request db) db)
