-- ===== src/Api/Documents/Listing/Readers.antt =====
-- Whom `list_documents` shows a document to.
use know_gate.Prelude.{
  suc, ◌≡◌, refl, sym, ◌∙◌, String, Bool, true, false, List, [], ◌∷◌, take, any, str_eq, eq_refl,
  All, All-append, All-take, Bool-cases, inl, inr, arith, subst, if◌then◌else◌,
}
use know_gate.Prelude.Dict.{has}
use know_gate.Db.{Database}
use know_gate.Db.Table.{select}
use know_gate.Auth.Permissions.{CurrentUser}
use know_gate.Api.Result.{ok}
use know_gate.Api.Result.Inversion.{bind-ok}
use know_gate.Api.Documents.{has_admin_role, user_group_ids, document_group_ids}
use know_gate.Api.Documents.Access.{Shares, any-ids, ok_inj}
use know_gate.Api.Pages.{Codec, Page, PageParams, listed, where_cursor, page_of, list_page}
use know_gate.Api.Documents.Listing.{
  DocumentRow, document_id, copies, join_groups, unique_from, list_of_groups, list_documents,
}

has-any : (k : String) (ks : List String) → has k ks ≡ any (λ j. str_eq j k) ks
unfolding has
has-any k [] = refl
has-any k (j ∷ ks) = ground (arith, has-any k ks)

module _ (P : DocumentRow → Type 0) where
  copies-All :
      (group_ids : List String) (r : DocumentRow) (gs : List String)
      → ((g : String) → has g group_ids ≡ true → has g gs ≡ true → P r)
      → All P (copies group_ids r gs)
  unfolding copies has
  copies-All group_ids r [] f = tt
  copies-All group_ids r (g ∷ gs) f =
      let rest : All P (copies group_ids r gs) =
        copies-All group_ids r gs (λ x h k. f x h (ground arith)) in
      elim (Bool-cases (has g group_ids)) [
        | inl h ↦ rw h (f g h (ground (arith, eq_refl g)), rest)
        | inr h ↦ rw h rest
      ]

  unique_from-All :
      (seen : List String) (rows : List DocumentRow) → All P rows → All P (unique_from seen rows)
  unfolding unique_from
  unique_from-All seen [] h = tt
  unique_from-All seen (r ∷ rows) h = elim (Bool-cases (has (document_id r) seen)) [
    | inl e ↦ rw e (unique_from-All seen rows h.1)
    | inr e ↦ rw e (h.0, unique_from-All (document_id r ∷ seen) rows h.1)
  ]

module _ (db : Database) (user_id : String) where
  abbrev pub Readable : DocumentRow → Type 0
  Readable r = Shares db user_id (document_id r)

  readable :
      (r : DocumentRow) (g : String)
      → has g (user_group_ids db user_id) ≡ true
      → has g (document_group_ids db (document_id r)) ≡ true
      → Readable r
  readable r g h k = record {
    group_id = g;
    of_user =
        sym (any-ids user_id g db.user_groups) ∙ (sym (has-any g (user_group_ids db user_id)) ∙ h);
    of_document =
        sym (any-ids (document_id r) g db.document_groups)
        ∙ (sym (has-any g (document_group_ids db (document_id r))) ∙ k);
  }

  join_groups-All :
      (rows : List DocumentRow) → All Readable (join_groups db (user_group_ids db user_id) rows)
  unfolding join_groups
  join_groups-All [] = tt
  join_groups-All (r ∷ rows) =
      All-append Readable
        (copies (user_group_ids db user_id) r (document_group_ids db (document_id r)))
        (join_groups db (user_group_ids db user_id) rows)
        (copies-All Readable (user_group_ids db user_id) r (document_group_ids db (document_id r))
          (λ g. readable r g))
        (join_groups-All rows)

module _ (id_le : String → String → Bool) (codec : Codec String) (user : CurrentUser)
    (db : Database) (filters : DocumentRow → Bool) (table : List DocumentRow) (params : PageParams)
    (page : Page DocumentRow) where
  list_of_groups-All :
      (group_ids : List String)
      → user_group_ids db user.id ≡ group_ids
      → list_of_groups id_le codec db filters table params group_ids ≡ ok page
      → All (Readable db user.id) page.items
  unfolding list_of_groups page_of
  list_of_groups-All [] e h = rw (sym (ok_inj h)) tt
  list_of_groups-All (g ∷ group_ids) e h =
      let (within, w, k) = bind-ok (where_cursor _ _ id_le codec params.cursor) _ h in
      let chosen : List DocumentRow =
        select within (listed DocumentRow.created_at document_id id_le filters table) in
      let joined : List DocumentRow = join_groups db (g ∷ group_ids) chosen in
      let all : All (Readable db user.id) joined =
        subst (λ ids. All (Readable db user.id) (join_groups db ids chosen)) e
          (join_groups-All db user.id chosen) in
      rw (sym (ok_inj k)) (
        All-take (Readable db user.id) params.limit
          (unique_from [] (take (suc params.limit) joined))
          (unique_from-All (Readable db user.id) [] (take (suc params.limit) joined)
            (All-take (Readable db user.id) (suc params.limit) joined all)))

  -- To a caller without the role `admin`, each document of a page has an access group that the
  -- caller is in.
  pub list_documents-Shares :
      has_admin_role user ≡ false
      → list_documents id_le codec user db filters table params ≡ ok page
      → All (λ r. Shares db user.id (document_id r)) page.items
  unfolding list_documents
  list_documents-Shares plain h = list_of_groups-All (user_group_ids db user.id) refl (
      subst
        (λ admin.
          (if admin
            then list_page DocumentRow.created_at document_id id_le codec filters table params
            else list_of_groups id_le codec db filters table params (user_group_ids db user.id))
          ≡ ok page)
        plain h)
