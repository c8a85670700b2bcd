-- ===== src/Api/Server/Lockout.antt =====
-- The guards of backend/app/api/v1/users.py and roles.py together: no sequence of requests locks the
-- administrators out.
pub mod Users
pub mod Roles
use know_gate.Prelude.{ℕ, ◌≡◌, refl, String, Bool, true, false, List, [], ◌∷◌}
use know_gate.Db.{Database, AccessGroup, Document}
use know_gate.Auth.Permissions.{CurrentUser}
use know_gate.Api.Result.{Result, ok, err, ◌>>=◌}
use know_gate.Api.Result.Ensures.{
  Ensures, returns, raises, Ensures-ok, Ensures-reject, Ensures-require_permission,
  Ensures-or_raise,
}
use know_gate.Api.Users.Admins.{active_admins}
use know_gate.Api.Groups
use know_gate.Api.Groups.{GroupCreate, GroupUpdate}
use know_gate.Api.Documents
use know_gate.Api.Documents.{DocumentUpdate}
use know_gate.Api.Server.{
  Request, handle, serve, after, second, invite_user, update_user, soft_delete_user, assign_role,
  revoke_role, create_role, update_role, delete_role, create_group, update_group, delete_group,
  add_user_to_group, remove_user_from_group, add_document_to_group, remove_document_from_group,
  update_document, delete_document,
}
use know_gate.Api.Server.Lockout.Users.{
  HasAdmin, update_user-HasAdmin, soft_delete_user-HasAdmin, assign_role-HasAdmin,
  invite_user-HasAdmin, revoke_role-HasAdmin,
}
use know_gate.Api.Server.Lockout.Roles.{
  create_role-HasAdmin, update_role-HasAdmin, delete_role-HasAdmin,
}

-- The other tables have no say in it.
elsewhere :
    (db : Database) (access_groups : List AccessGroup) (user_groups : List (String × String))
    (documents : List Document) (document_groups : List (String × String))
    → HasAdmin db
    → HasAdmin (record db {
      access_groups = access_groups;
      user_groups = user_groups;
      documents = documents;
      document_groups = document_groups;
    })
unfolding active_admins
elsewhere db access_groups user_groups documents document_groups h = record {
  distinct = h.distinct;
  present = h.present;
}

second-Ensures :
    {A : Type 0} (r : Result (A × Database))
    → Ensures (λ p. HasAdmin p.1) r
    → Ensures HasAdmin (second r)
unfolding ◌>>=◌
second-Ensures (ok p) h = returns (Ensures-ok h)
second-Ensures (err e) h = raises

module _ (actor : CurrentUser) (db : Database) (h : HasAdmin db) where
  create_group_case :
      (new_id : String) (body : GroupCreate)
      → Ensures (λ p. HasAdmin p.1) (Groups.create_group actor new_id body db)
  unfolding Groups.create_group
  create_group_case new_id body =
      Ensures-require_permission actor _ _
        λ _. Ensures-reject _ _ _ λ _. Ensures-reject _ _ _ λ _. returns (elsewhere db _ _ _ _ h)

  update_group_case :
      (group_id : String) (body : GroupUpdate)
      → Ensures (λ p. HasAdmin p.1) (Groups.update_group actor group_id body db)
  unfolding Groups.update_group
  update_group_case group_id body =
      Ensures-require_permission actor _ _ λ _.
        Ensures-or_raise _ _ _ λ g _. Ensures-reject _ _ _ λ _. returns (elsewhere db _ _ _ _ h)

  delete_group_case : (group_id : String) → Ensures HasAdmin (Groups.delete_group actor group_id db)
  unfolding Groups.delete_group
  delete_group_case group_id =
      Ensures-require_permission actor _ _ λ _.
        Ensures-or_raise _ _ _ λ g _. Ensures-reject _ _ _ λ _. returns (elsewhere db _ _ _ _ h)

  members_case :
      (group_id user_id : String)
      → Ensures HasAdmin (Groups.add_user_to_group actor group_id user_id db)
        × Ensures HasAdmin (Groups.remove_user_from_group actor group_id user_id db)
  unfolding Groups.add_user_to_group Groups.remove_user_from_group
  members_case group_id user_id = (
    (Ensures-require_permission actor _ _ λ _.
        Ensures-or_raise _ _ _
          λ g _. Ensures-or_raise _ _ _ λ u _. returns (elsewhere db _ _ _ _ h)),
    (Ensures-require_permission actor _ _ λ _. returns (elsewhere db _ _ _ _ h)),
  )

  shares_case :
      (group_id doc_id : String)
      → Ensures HasAdmin (Groups.add_document_to_group actor group_id doc_id db)
        × Ensures HasAdmin (Groups.remove_document_from_group actor group_id doc_id db)
  unfolding Groups.add_document_to_group Groups.remove_document_from_group
  shares_case group_id doc_id = (
    (Ensures-require_permission actor _ _ λ _.
        Ensures-or_raise _ _ _
          λ g _. Ensures-or_raise _ _ _ λ d _. returns (elsewhere db _ _ _ _ h)),
    (Ensures-require_permission actor _ _ λ _. returns (elsewhere db _ _ _ _ h)),
  )

  update_document_case :
      (doc_id : String) (body : DocumentUpdate)
      → Ensures (λ p. HasAdmin p.1) (Documents.update_document actor doc_id body db)
  unfolding Documents.update_document
  update_document_case doc_id body =
      Ensures-require_permission actor _ _ λ _.
        Ensures-or_raise _ _ _ λ d _. Ensures-reject _ _ _ λ _. returns (elsewhere db _ _ _ _ h)

  delete_document_case :
      (doc_id : String) → Ensures HasAdmin (Documents.delete_document actor doc_id db)
  unfolding Documents.delete_document
  delete_document_case doc_id =
      Ensures-require_permission actor _ _
        λ _. Ensures-or_raise _ _ _ λ d _. returns (elsewhere db _ _ _ _ h)

  handle-HasAdmin : (request : Request) → Ensures HasAdmin (handle actor request db)
  unfolding handle
  handle-HasAdmin (invite_user new_id hash body) =
      second-Ensures _ (invite_user-HasAdmin actor new_id hash body db h)
  handle-HasAdmin (update_user user_id body) =
      second-Ensures _ (update_user-HasAdmin actor user_id body db h)
  handle-HasAdmin (soft_delete_user user_id) = soft_delete_user-HasAdmin actor user_id db h
  handle-HasAdmin (assign_role user_id body) =
      second-Ensures _ (assign_role-HasAdmin actor user_id body db h)
  handle-HasAdmin (revoke_role user_id role_id) = revoke_role-HasAdmin actor user_id role_id db h
  handle-HasAdmin (create_role new_id body) =
      second-Ensures _ (create_role-HasAdmin actor new_id body db h)
  handle-HasAdmin (update_role role_id body) =
      second-Ensures _ (update_role-HasAdmin actor role_id body db h)
  handle-HasAdmin (delete_role role_id) = delete_role-HasAdmin actor role_id db h
  handle-HasAdmin (create_group new_id body) = second-Ensures _ (create_group_case new_id body)
  handle-HasAdmin (update_group group_id body) = second-Ensures _ (update_group_case group_id body)
  handle-HasAdmin (delete_group group_id) = delete_group_case group_id
  handle-HasAdmin (add_user_to_group group_id user_id) = (members_case group_id user_id).0
  handle-HasAdmin (remove_user_from_group group_id user_id) = (members_case group_id user_id).1
  handle-HasAdmin (add_document_to_group group_id doc_id) = (shares_case group_id doc_id).0
  handle-HasAdmin (remove_document_from_group group_id doc_id) = (shares_case group_id doc_id).1
  handle-HasAdmin (update_document doc_id body) =
      second-Ensures _ (update_document_case doc_id body)
  handle-HasAdmin (delete_document doc_id) = delete_document_case doc_id

after-HasAdmin :
    (r : Result Database) (db : Database) → HasAdmin db → Ensures HasAdmin r → HasAdmin (after r db)
after-HasAdmin (ok db') db h e = Ensures-ok e
after-HasAdmin (err x) db h e = h

-- From a database whose role ids are distinct and in which some active user has a role named `admin`,
-- every sequence of administration requests, by any callers and whether they succeed or fail, leads
-- to such a database again: the last active administrator cannot be lost.
pub serve-HasAdmin :
    (requests : List (CurrentUser × Request)) (db : Database)
    → HasAdmin db
    → HasAdmin (serve requests db)
unfolding serve
serve-HasAdmin [] db h = h
serve-HasAdmin ((actor, request) ∷ requests) db h =
    serve-HasAdmin requests (after (handle actor request db) db)
      (after-HasAdmin (handle actor request db) db h (handle-HasAdmin actor db h request))
