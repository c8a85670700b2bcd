-- ===== src/Tests/Api.antt =====
-- Runs of the handlers of backend/app/api/v1.
use know_gate.Prelude.{◌≡◌, ◌↔◌, refl, true, none, some, List, [], ◌∷◌, arith}
use know_gate.Prelude.Dict.{has}
use know_gate.Db.{Database, User, Role, AccessGroup, Document, UserStatus, DocumentStatus}
use know_gate.Db.Table.{
  find?, select, update_where, delete_where, sum_by, count_where, has_pair, insert_pair,
  delete_pair,
}
use know_gate.Auth.Permissions.{CurrentUser, has_permission, get_role_permissions}
use know_gate.Api.Result.{ok, err, api_error, conflict, reject, or_raise, require_permission, ◌>>=◌}
use know_gate.Api.Users.{role_names, admin_links, other_active_admins, soft_delete_user}
use know_gate.Api.Users.Admins.{active_admins}
use know_gate.Api.Groups.{add_user_to_group, remove_user_from_group}
use know_gate.Api.Documents.{DocumentUpdate, update_document, get_document, share, has_admin_role}
use know_gate.Api.Documents.Access.{CanRead, get_document-ok}
use know_gate.Api.Documents.Sharing.{Invited, update_document-readers}
use know_gate.Api.Server.{Request, serve, handle}
use know_gate.Api.Server.Lockout.Users.{HasAdmin}
use know_gate.Api.Server.Lockout.{serve-HasAdmin}
use know_gate.Api.Server

abbrev pub ada : User
ada = record {
  id = "u1";
  email = "ada@x";
  display_name = "Ada";
  password_hash = none;
  language_pref = "en";
  status = UserStatus.active;
}

abbrev pub ben : User
ben = record {
  id = "u2";
  email = "ben@x";
  display_name = "Ben";
  password_hash = none;
  language_pref = "en";
  status = UserStatus.active;
}

abbrev pub admin_role : Role
admin_role = record { id = "r1"; name = "admin"; description = none; permissions = [] }

abbrev pub member_role : Role
member_role = record { id = "r2"; name = "member"; description = none; permissions = [] }

abbrev pub team : AccessGroup
team = record { id = "g1"; name = "team"; description = none; created_by = "u1" }

abbrev pub handbook : Document
handbook = record {
  id = "d1";
  source = "google_drive";
  source_id = "f1";
  title = "Handbook";
  owner = none;
  mime_type = none;
  size_bytes = none;
  status = DocumentStatus.active;
  object_key = none;
  indexed_at = none;
  error_message = none;
}

abbrev pub tables : Database
tables = record {
  users = ada ∷ ben ∷ [];
  roles = admin_role ∷ member_role ∷ [];
  user_roles = ("u1", "r1") ∷ ("u2", "r2") ∷ [];
  access_groups = team ∷ [];
  user_groups = ("u2", "g1") ∷ [];
  documents = handbook ∷ [];
  document_groups = [];
}

abbrev pub as_ada : CurrentUser
as_ada = record { id = "u1"; roles = "admin" ∷ [] }

abbrev pub as_ben : CurrentUser
as_ben = record { id = "u2"; roles = "member" ∷ [] }

last_admin : soft_delete_user as_ada "u1" tables ≡ err (api_error 409 conflict)
unfolding soft_delete_user require_permission has_permission get_role_permissions or_raise reject
    ◌>>=◌ find? role_names select other_active_admins admin_links sum_by count_where
last_admin = refl

tables-HasAdmin : HasAdmin tables
unfolding active_admins admin_links sum_by count_where has
tables-HasAdmin = record { distinct = (refl, (refl, tt)); present = omega arith }

abbrev pub requests : List (CurrentUser × Request)
requests =
    (as_ada, Server.assign_role "u2" (record { role_id = none; role_name = some "admin" }))
    ∷ (as_ada, Server.soft_delete_user "u1")
    ∷ (as_ada, Server.revoke_role "u2" "r1")
    ∷ []

serve-HasAdmin_example : HasAdmin (serve requests tables)
serve-HasAdmin_example = serve-HasAdmin requests tables tables-HasAdmin

get_document-ok_example :
    get_document as_ada "d1" tables ≡ ok handbook ↔ CanRead as_ada "d1" tables handbook
get_document-ok_example = get_document-ok as_ada tables "d1" handbook

abbrev sharing : DocumentUpdate
sharing = record {
  title = none;
  owner = none;
  status = none;
  access_group_ids = some ("g1" ∷ "g9" ∷ []);
}

abbrev shared_tables : Database
shared_tables = record tables { document_groups = ("d1", "g1") ∷ [] }

shares : update_document as_ada "d1" sharing tables ≡ ok (handbook, shared_tables)
unfolding update_document require_permission has_permission get_role_permissions or_raise reject
    ◌>>=◌ find? share select delete_where update_where
shares = refl

update_document-readers_example :
    (has_admin_role as_ada ≡ true)
    × (get_document as_ben "d1" shared_tables ≡ ok handbook
        ↔ Invited as_ben ("g1" ∷ "g9" ∷ []) tables)
update_document-readers_example =
    update_document-readers as_ada "d1" sharing ("g1" ∷ "g9" ∷ []) tables (handbook, shared_tables)
      as_ben refl shares refl

abbrev ada_joined : Database
ada_joined = record tables { user_groups = ("u2", "g1") ∷ ("u1", "g1") ∷ [] }

adds : add_user_to_group as_ada "g1" "u1" tables ≡ ok ada_joined
unfolding add_user_to_group require_permission has_permission get_role_permissions or_raise reject
    ◌>>=◌ find? insert_pair has_pair
adds = refl

removes : remove_user_from_group as_ada "g1" "u1" ada_joined ≡ ok tables
unfolding remove_user_from_group require_permission has_permission get_role_permissions reject ◌>>=◌
    delete_pair
removes = refl
