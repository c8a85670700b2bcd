-- ===== src/Api/Documents/Listing.antt =====
-- `list_documents` of backend/app/api/v1/documents.py, with the page and the cursor of Api/Pages. The
-- filters on status, source, owner, language and title are one test on rows.
pub mod Readers
use know_gate.Prelude.{
  ℕ, suc, ◌≡◌, refl, String, Bool, true, Option, none, List, [], ◌∷◌, ◌++◌, if◌then◌else◌, take,
  All, All-append, All-take, Bool-cases, inl, inr,
}
use know_gate.Prelude.Dict.{has}
use know_gate.Db.{Database, Document}
use know_gate.Db.Table.{select}
use know_gate.Auth.Permissions.{CurrentUser}
use know_gate.Api.Result.{Result, ok, ◌>>=◌}
use know_gate.Api.Documents.{has_admin_role, user_group_ids, document_group_ids}
use know_gate.Api.Pages.{Codec, Page, PageParams, listed, where_cursor, page_of, list_page}

-- A row of `documents` with its time of creation.
pub record DocumentRow : Type 0 where
  pub document : Document
  pub created_at : ℕ

abbrev pub document_id : DocumentRow → String
document_id r = r.document.id

-- A join with the groups of a document has a row for each of them that `in_(group_ids)` keeps.
unfoldable pub copies : {R : Type 0} → List String → R → List String → List R
copies group_ids r [] = []
copies group_ids r (g ∷ gs) =
    let rest = copies group_ids r gs in if has g group_ids then r ∷ rest else rest

unfoldable pub join_groups : Database → List String → List DocumentRow → List DocumentRow
join_groups db group_ids [] = []
join_groups db group_ids (r ∷ rows) =
    copies group_ids r (document_group_ids db (document_id r)) ++ join_groups db group_ids rows

-- `.unique()`: each document where it is first met
unfoldable pub unique_from : List String → List DocumentRow → List DocumentRow
unique_from seen [] = []
unique_from seen (r ∷ rows) =
    let old = unique_from seen rows in
    let new = unique_from (document_id r ∷ seen) rows in
    if has (document_id r) seen then old else r ∷ new

module _ (id_le : String → String → Bool) (codec : Codec String) where
  -- The rest for a caller without the role `admin`, from `if not group_ids` on.
  unfoldable pub list_of_groups :
      Database
      → (DocumentRow → Bool)
      → List DocumentRow
      → PageParams
      → List String
      → Result (Page DocumentRow)
  list_of_groups db filters table params [] = ok (record { items = []; next_cursor = none })
  list_of_groups db filters table params (g ∷ group_ids) =
      where_cursor DocumentRow.created_at document_id id_le codec params.cursor >>= λ within. ok (
        page_of DocumentRow.created_at document_id id_le codec params.limit (
          unique_from [] (
            take (suc params.limit) (
              join_groups db (g ∷ group_ids)
                (select within (listed DocumentRow.created_at document_id id_le filters table))))))

  unfoldable pub list_documents :
      CurrentUser
      → Database
      → (DocumentRow → Bool)
      → List DocumentRow
      → PageParams
      → Result (Page DocumentRow)
  list_documents user db filters table params =
      if has_admin_role user
      then list_page DocumentRow.created_at document_id id_le codec filters table params
      else list_of_groups db filters table params (user_group_ids db user.id)
