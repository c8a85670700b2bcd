-- ===== src/Api/Documents.antt =====
-- backend/app/api/v1/documents.py, with the helpers of backend/app/api/v1/_permissions.py: reading
-- one document, changing its metadata, soft deletion and the key of the preview. The access groups
-- of a document are its pairs in `document_groups`. `get_presigned_url` is not called here: the
-- preview returns the object key that the URL is signed for.
pub mod Access
pub mod Sharing
pub mod Listing
use Prim.Native.String.{◌++◌ as concat}
use know_gate.Prelude.{
  ℕ, String, Bool, true, false, not, ◌&&◌, ◌||◌, Option, none, some, List, [], ◌∷◌, ◌++◌, map,
  str_eq, if◌then◌else◌, any,
}
use know_gate.Db.{Database, Document, DocumentStatus, AccessGroup}
use know_gate.Db.Table.{find?, select, update_where, delete_where, has_pair}
use know_gate.Auth.Permissions
use know_gate.Auth.Permissions.{CurrentUser, holds}
use know_gate.Api.Result.{
  Result, ok, err, api_error, reject, or_raise, require_permission, not_found, forbidden, ◌>>=◌,
  ◌>>◌,
}
use know_gate.Api.Users.{is_some, or_keep}
use know_gate.Api.Roles.{keep_some}

abbrev pub has_admin_role : CurrentUser → Bool
has_admin_role user = holds "admin" user.roles

-- `user_group_ids`, and the ids of `doc.access_groups`
abbrev pub user_group_ids : Database → String → List String
user_group_ids db user_id = map (λ p. p.1) (select (λ p. str_eq p.0 user_id) db.user_groups)

abbrev pub document_group_ids : Database → String → List String
document_group_ids db doc_id = map (λ p. p.1) (select (λ p. str_eq p.0 doc_id) db.document_groups)

-- `bool(set(group_ids) & doc_groups)`
unfoldable pub intersects : List String → List String → Bool
intersects [] ys = false
intersects (x ∷ xs) ys = any (λ y. str_eq y x) ys || intersects xs ys

unfoldable pub user_has_doc_access : List String → List String → Bool
unfolding intersects
user_has_doc_access [] doc_groups = false
user_has_doc_access (g ∷ group_ids) doc_groups = intersects (g ∷ group_ids) doc_groups

-- The check that the detail and the preview share.
unfoldable pub check_access : CurrentUser → String → Database → Result (Unit {0})
unfolding user_has_doc_access
check_access user doc_id db =
    reject
      (not (has_admin_role user)
        && not (user_has_doc_access (user_group_ids db user.id) (document_group_ids db doc_id)))
      (api_error 403 forbidden)

abbrev pub load : String → Database → Option Document
load doc_id db = find? (λ d. str_eq d.id doc_id) db.documents

unfoldable pub get_document : CurrentUser → String → Database → Result Document
get_document user doc_id db = do
  doc ← or_raise (load doc_id db) (api_error 404 not_found)
  check_access user doc.id db
  ok doc

-- The key that the URL is signed for.
unfoldable pub get_document_preview : CurrentUser → String → Database → Result String
get_document_preview user doc_id db = do
  doc ← or_raise (load doc_id db) (api_error 404 not_found)
  check_access user doc.id db
  ok (concat doc.source (concat "/" doc.source_id))

pub record DocumentUpdate : Type 0 where
  pub title : Option String
  pub owner : Option String
  pub status : Option DocumentStatus
  pub access_group_ids : Option (List String)

abbrev pub apply_document_update : DocumentUpdate → Document → Document
apply_document_update body doc = record doc {
  title = or_keep body.title doc.title;
  owner = keep_some body.owner doc.owner;
  status = or_keep body.status doc.status;
}

-- `doc.access_groups = list(groups)`: the pairs of the document are replaced by one for each existing
-- group that is asked for.
unfoldable pub share : String → Option (List String) → Database → List (String × String)
share doc_id none db = db.document_groups
share doc_id (some ids) db =
    delete_where (λ p. str_eq p.0 doc_id) db.document_groups
    ++ map (λ g. (doc_id, g.id)) (select (λ g. any (λ i. str_eq i g.id) ids) db.access_groups)

unfoldable pub update_document :
    CurrentUser → String → DocumentUpdate → Database → Result (Document × Database)
unfolding share
update_document user doc_id body db = do
  require_permission user Permissions.edit_doc_metadata
  doc ← or_raise (load doc_id db) (api_error 404 not_found)
  reject (is_some body.access_group_ids && not (has_admin_role user)) (api_error 403 forbidden)
  ok (
    apply_document_update body doc,
    record db {
      documents = update_where (λ d. str_eq d.id doc.id) (apply_document_update body) db.documents;
      document_groups = share doc.id body.access_group_ids db;
    },
  )

abbrev pub mark_deleted : Document → Document
mark_deleted doc = record doc { status = DocumentStatus.deleted }

unfoldable pub delete_document : CurrentUser → String → Database → Result Database
delete_document user doc_id db = do
  require_permission user Permissions.delete_doc
  doc ← or_raise (load doc_id db) (api_error 404 not_found)
  ok (record db { documents = update_where (λ d. str_eq d.id doc.id) mark_deleted db.documents })
