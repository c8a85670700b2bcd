-- ===== src/Api/Documents/Sharing.antt =====
-- What the handlers that share documents (backend/app/api/v1/documents.py) and those that change
-- groups (groups.py) do to the tables of members.
use mathlib.Core.Path.{ap₂}
use know_gate.Prelude.{
  ◌≡◌, refl, ap, subst, sym, ◌∙◌, String, Bool, true, false, not, ◌&&◌, ◌||◌, Option, none, some,
  List, [], ◌∷◌, ◌++◌, map, str_eq, eq_iff, eq_refl, if◌then◌else◌, any, arith, inl, inr, ◌↔◌,
}
use know_gate.Db.{Database, Document, AccessGroup}
use know_gate.Db.Table.{
  find?, find?-update_where, select, update_where, delete_where, has_pair, has_pair-insert_pair,
  has_pair-delete_pair, find?-sound,
}
use know_gate.Auth.Permissions.{CurrentUser}
use know_gate.Api.Result.{ok}
use know_gate.Api.Result.Ensures.{
  returns, Ensures-at, Ensures-reject, Ensures-require_permission, Ensures-or_raise,
}
use know_gate.Api.Users.{is_some}
use know_gate.Api.Groups.{add_user_to_group, remove_user_from_group}
use know_gate.Api.Documents.{
  DocumentUpdate, apply_document_update, share, update_document, has_admin_role, load, get_document,
}
use know_gate.Api.Documents.Access.{CanRead, get_document-ok}

has_pair-append_all :
    (a b : String) (ps qs : List (String × String))
    → has_pair a b (ps ++ qs) ≡ (has_pair a b ps || has_pair a b qs)
unfolding has_pair
has_pair-append_all a b [] qs = refl
has_pair-append_all a b ((c, d) ∷ ps) qs = ground (arith, has_pair-append_all a b ps qs)

has_pair-delete_where :
    (a b x : String) (ps : List (String × String))
    → has_pair a b (delete_where (λ p. str_eq p.0 x) ps) ≡ (not (str_eq a x) && has_pair a b ps)
unfolding has_pair delete_where
has_pair-delete_where a b x [] = ground arith
has_pair-delete_where a b x ((c, d) ∷ ps) =
    ground (arith, eq_iff c x, eq_iff a x, eq_iff c a, has_pair-delete_where a b x ps)

abbrev pub exists : String → List AccessGroup → Bool
exists g groups = any (λ h. str_eq h.id g) groups

abbrev pub asked : String → List String → Bool
asked g ids = any (λ i. str_eq i g) ids

asked-at : (a b : String) (ids : List String) → str_eq a b ≡ true → asked a ids ≡ asked b ids
asked-at a b ids h = ap (λ x. asked x ids) ((eq_iff a b).0 h)

has_pair-asked :
    (a b x : String) (ids : List String) (groups : List AccessGroup)
    → has_pair a b (map (λ g. (x, g.id)) (select (λ g. any (λ i. str_eq i g.id) ids) groups))
      ≡ (str_eq x a && asked b ids && exists b groups)
unfolding has_pair select
has_pair-asked a b x ids [] = ground arith
has_pair-asked a b x ids (g ∷ groups) =
    ground (arith, asked-at g.id b ids, has_pair-asked a b x ids groups)

-- The groups of the document become those asked for that exist; those of others stay.
has_pair-share :
    (d g doc_id : String) (ids : List String) (db : Database)
    → has_pair d g (share doc_id (some ids) db) ≡ (
        if str_eq d doc_id
        then asked g ids && exists g db.access_groups
        else has_pair d g db.document_groups)
unfolding share
has_pair-share d g doc_id ids db = ground (
  arith,
  eq_iff d doc_id,
  eq_iff doc_id d,
  has_pair-append_all d g (delete_where (λ p. str_eq p.0 doc_id) db.document_groups)
      (map (λ g. (doc_id, g.id)) (select (λ g. any (λ i. str_eq i g.id) ids) db.access_groups)),
  has_pair-delete_where d g doc_id db.document_groups,
  has_pair-asked d g doc_id ids db.access_groups,
)

-- A group that was asked for, that exists and that has the reader.
pub record Invited (reader : CurrentUser) (ids : List String) (db : Database) : Type 0 where
  pub group_id : String
  pub member : has_pair reader.id group_id db.user_groups ≡ true
  pub chosen : (asked group_id ids && exists group_id db.access_groups) ≡ true

module _ (doc_id : String) (body : DocumentUpdate) (ids : List String) (db : Database)
    (doc : Document) (same : doc.id ≡ doc_id) (row : load doc_id db ≡ some doc)
    (reader : CurrentUser) (no_admin : has_admin_role reader ≡ false) where
  abbrev shared : Database
  shared = record db {
    documents = update_where (λ d. str_eq d.id doc.id) (apply_document_update body) db.documents;
    document_groups = share doc.id (some ids) db;
  }

  invited : CanRead reader doc_id shared (apply_document_update body doc) → Invited reader ids db
  invited c = elim c.allowed [
    | inl a ↦ cc
    | inr s ↦ record {
      group_id = s.group_id;
      member = s.of_user;
      chosen =
          ground
            (arith, s.of_document, has_pair-share doc.id s.group_id doc.id ids db, eq_refl doc.id);
    }
  ]

  reads : Invited reader ids db → CanRead reader doc_id shared (apply_document_update body doc)
  reads i = record {
    row =
        subst
          (λ x.
            find? (λ d. str_eq d.id doc_id)
              (update_where (λ d. str_eq d.id x) (apply_document_update body) db.documents)
            ≡ some (apply_document_update body doc))
          (sym same)
          (find?-update_where (λ d. str_eq d.id doc_id) (apply_document_update body) db.documents
            doc (λ _. refl) row);
    allowed = inr (record {
      group_id = i.group_id;
      of_user = i.member;
      of_document =
          ground (arith, i.chosen, has_pair-share doc.id i.group_id doc.id ids db, eq_refl doc.id);
    });
  }

  readers :
      get_document reader doc_id shared ≡ ok (apply_document_update body doc)
      ↔ Invited reader ids db
  readers = (
    (λ h. invited ((get_document-ok reader shared doc_id (apply_document_update body doc)).0 h)),
    (λ i. (get_document-ok reader shared doc_id (apply_document_update body doc)).1 (reads i)),
  )

-- After a successful `update_document` that asks for access groups, the caller is an administrator,
-- and a reader who is none can read the document exactly if some group that was asked for, and that
-- exists, has the reader as a member: what the document was shared with before does not count.
pub update_document-readers :
    (user : CurrentUser) (doc_id : String) (body : DocumentUpdate) (ids : List String)
    (db : Database) (new : Document × Database) (reader : CurrentUser)
    → body.access_group_ids ≡ some ids
    → update_document user doc_id body db ≡ ok new
    → has_admin_role reader ≡ false
    → (has_admin_role user ≡ true)
      × (get_document reader doc_id new.1 ≡ ok new.0 ↔ Invited reader ids db)
unfolding update_document
update_document-readers user doc_id body ids db new reader asks h no_admin =
    Ensures-at
      {P = λ new.
        (has_admin_role user ≡ true)
        × (get_document reader doc_id new.1 ≡ ok new.0 ↔ Invited reader ids db)}
      h
      (Ensures-require_permission user _ _ λ _. Ensures-or_raise _ _ _ λ doc row.
        Ensures-reject _ _ _ λ guard. returns (
          by_admin body.access_group_ids asks guard,
          rw asks (readers doc_id body ids db doc (found doc row) row reader no_admin),
        ))
  where
    found : (doc : Document) → load doc_id db ≡ some doc → doc.id ≡ doc_id
    found doc e =
        (eq_iff doc.id doc_id).0 (find?-sound (λ d. str_eq d.id doc_id) db.documents doc e)

    by_admin :
        (o : Option (List String))
        → o ≡ some ids
        → (is_some o && not (has_admin_role user)) ≡ false
        → has_admin_role user ≡ true
    by_admin none e g = cc
    by_admin (some _) e g = ground arith

absorb : (a b : Bool) → (not a && (a || b)) ≡ (not a && b)
absorb true b = refl
absorb false b = refl

-- If `add_user_to_group` succeeds and then `remove_user_from_group` does for the same group and user,
-- the first makes the user a member and the second ends it, and no other membership changes.
add_user-remove_user :
    (actor actor' : CurrentUser) (group_id user_id v h : String) (db added removed : Database)
    → add_user_to_group actor group_id user_id db ≡ ok added
    → remove_user_from_group actor' group_id user_id added ≡ ok removed
    → (has_pair v h added.user_groups
        ≡ (str_eq user_id v && str_eq group_id h || has_pair v h db.user_groups))
      × (has_pair v h removed.user_groups
          ≡ (not (str_eq user_id v && str_eq group_id h) && has_pair v h db.user_groups))
unfolding add_user_to_group remove_user_from_group
add_user-remove_user actor actor' group_id user_id v h db added removed add remove = (
  joined,
  left
      ∙ ap (λ b. not (str_eq user_id v && str_eq group_id h) && b) joined
      ∙ absorb (str_eq user_id v && str_eq group_id h) (has_pair v h db.user_groups),
)
  where
    joined :
        has_pair v h added.user_groups
        ≡ (str_eq user_id v && str_eq group_id h || has_pair v h db.user_groups)
    joined =
        Ensures-at
          {P = λ new.
            has_pair v h new.user_groups
            ≡ (str_eq user_id v && str_eq group_id h || has_pair v h db.user_groups)}
          add
          (Ensures-require_permission actor _ _ λ _. Ensures-or_raise _ _ _ λ g e.
            Ensures-or_raise _ _ _ λ u e'. returns (
              has_pair-insert_pair u.id g.id v h db.user_groups
              ∙ ap₂ (λ x y. str_eq x v && str_eq y h || has_pair v h db.user_groups)
                  ((eq_iff u.id user_id).0 (find?-sound (λ u. str_eq u.id user_id) db.users u e'))
                  ((eq_iff g.id group_id).0
                    (find?-sound (λ g. str_eq g.id group_id) db.access_groups g e))))

    left :
        has_pair v h removed.user_groups
        ≡ (not (str_eq user_id v && str_eq group_id h) && has_pair v h added.user_groups)
    left =
        Ensures-at
          {P = λ new.
            has_pair v h new.user_groups
            ≡ (not (str_eq user_id v && str_eq group_id h) && has_pair v h added.user_groups)}
          remove
          (Ensures-require_permission actor' _ _
            λ _. returns (has_pair-delete_pair user_id group_id v h added.user_groups))
