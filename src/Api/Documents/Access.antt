-- ===== src/Api/Documents/Access.antt =====
-- Who may read a document by backend/app/api/v1/documents.py, in terms of the tables of members.
use know_gate.Prelude.{
  ◌≡◌, refl, sym, ◌∙◌, ◌⊎◌, inl, inr, ◌↔◌, String, Bool, true, false, not, ◌&&◌, some, List, [],
  ◌∷◌, map, str_eq, eq_iff, eq_refl, any, arith, Bool-cases,
}
use know_gate.Db.{Database, Document}
use know_gate.Db.Table.{select, has_pair}
use know_gate.Auth.Permissions.{CurrentUser}
use know_gate.Api.Result.{Result, ok, api_error, forbidden, or_raise, reject, ◌>>=◌}
use know_gate.Api.Result.Inversion.{or_raise-ok, bind-ok}
use know_gate.Api.Documents.{
  has_admin_role, user_group_ids, document_group_ids, intersects, user_has_doc_access, check_access,
  load, get_document,
}

-- Some access group has both the user and the document.
pub record Shares (db : Database) (user_id doc_id : String) : Type 0 where
  pub group_id : String
  pub of_user : has_pair user_id group_id db.user_groups ≡ true
  pub of_document : has_pair doc_id group_id db.document_groups ≡ true

abbrev pub ids : String → List (String × String) → List String
ids a pairs = map (λ p. p.1) (select (λ p. str_eq p.0 a) pairs)

pub any-ids :
    (a x : String) (pairs : List (String × String))
    → any (λ y. str_eq y x) (ids a pairs) ≡ has_pair a x pairs
unfolding select has_pair
any-ids a x [] = refl
any-ids a x ((c, d) ∷ pairs) = ground (arith, any-ids a x pairs)

intersects_sound :
    (a : String) (pairs : List (String × String)) (ys : List String)
    → intersects (ids a pairs) ys ≡ true
    → (g : String) × (has_pair a g pairs ≡ true) × (any (λ y. str_eq y g) ys ≡ true)
unfolding select has_pair intersects
intersects_sound a [] ys h = cc
intersects_sound a ((c, d) ∷ pairs) ys h =
    elim (Bool-cases (str_eq c a && any (λ y. str_eq y d) ys)) [
      | inl here ↦ (d, ground (arith, eq_refl d), ground arith)
      | inr there ↦
          let (g, u, v) = intersects_sound a pairs ys (ground arith) in (g, ground arith, v)
    ]

intersects_complete :
    (a g : String) (pairs : List (String × String)) (ys : List String)
    → has_pair a g pairs ≡ true
    → any (λ y. str_eq y g) ys ≡ true
    → intersects (ids a pairs) ys ≡ true
unfolding select has_pair intersects
intersects_complete a g [] ys h k = cc
intersects_complete a g ((c, d) ∷ pairs) ys h k =
    ground (arith, eq_iff d g, intersects_complete a g pairs ys)

access-intersects : (xs ys : List String) → user_has_doc_access xs ys ≡ intersects xs ys
unfolding user_has_doc_access intersects
access-intersects [] ys = refl
access-intersects (x ∷ xs) ys = refl

pub access-Shares :
    (db : Database) (user_id doc_id : String)
    → user_has_doc_access (user_group_ids db user_id) (document_group_ids db doc_id) ≡ true
      ↔ Shares db user_id doc_id
access-Shares db user_id doc_id = (to_group, of_group)
  where
    to_group :
        user_has_doc_access (user_group_ids db user_id) (document_group_ids db doc_id) ≡ true
        → Shares db user_id doc_id
    to_group h =
        let (g, u, v) = intersects_sound user_id db.user_groups (document_group_ids db doc_id) (
          sym (access-intersects (user_group_ids db user_id) (document_group_ids db doc_id)) ∙ h) in
        record {
          group_id = g;
          of_user = u;
          of_document = sym (any-ids doc_id g db.document_groups) ∙ v;
        }

    of_group :
        Shares db user_id doc_id
        → user_has_doc_access (user_group_ids db user_id) (document_group_ids db doc_id) ≡ true
    of_group s =
        access-intersects (user_group_ids db user_id) (document_group_ids db doc_id)
        ∙ intersects_complete user_id s.group_id db.user_groups (document_group_ids db doc_id)
            s.of_user (any-ids doc_id s.group_id db.document_groups ∙ s.of_document)

-- The document is there, and the caller is an administrator or shares a group with it.
pub record CanRead (user : CurrentUser) (doc_id : String) (db : Database) (doc : Document)
    : Type 0 where
  pub row : load doc_id db ≡ some doc
  pub allowed : (has_admin_role user ≡ true) ⊎ Shares db user.id doc.id

allowed_sound : (a s : Bool) → (not a && not s) ≡ false → (a ≡ true) ⊎ (s ≡ true)
allowed_sound true s h = inl refl
allowed_sound false true h = inr refl
allowed_sound false false h = cc

no_reason : (a : Bool) → (not a && false) ≡ false
no_reason true = refl
no_reason false = refl

pub ok_inj : {A : Type 0} {a b : A} → ◌≡◌ {A = Result A} (ok a) (ok b) → a ≡ b
ok_inj h = cc

module _ (user : CurrentUser) (db : Database) where
  check-ok :
      (doc : Document)
      → check_access user doc.id db ≡ ok tt
        ↔ (has_admin_role user ≡ true) ⊎ Shares db user.id doc.id
  unfolding check_access reject
  check-ok doc = (to_reason, of_reason)
    where
      passed : (b : Bool) → reject b (api_error 403 forbidden) ≡ ok tt → b ≡ false
      passed true h = cc
      passed false h = refl

      to_reason :
          check_access user doc.id db ≡ ok tt
          → (has_admin_role user ≡ true) ⊎ Shares db user.id doc.id
      to_reason h = elim (allowed_sound (has_admin_role user) _ (passed _ h)) [
        | inl a ↦ inl a
        | inr s ↦ inr ((access-Shares db user.id doc.id).0 s)
      ]

      of_reason :
          (has_admin_role user ≡ true) ⊎ Shares db user.id doc.id
          → check_access user doc.id db ≡ ok tt
      of_reason (inl a) = rw a
      of_reason (inr s) =
          rw ((access-Shares db user.id doc.id).1 s) (rw (no_reason (has_admin_role user)))

  -- A caller is given a document by its id exactly if the row is there and the caller has the role
  -- `admin` or is a member of an access group that the document is shared with.
  pub get_document-ok :
      (doc_id : String) (doc : Document)
      → get_document user doc_id db ≡ ok doc ↔ CanRead user doc_id db doc
  unfolding get_document or_raise ◌>>=◌
  get_document-ok doc_id doc = (to_reason, of_reason)
    where
      parts :
          (d : Document)
          → load doc_id db ≡ some d
          → (check_access user d.id db ≡ ok tt) × (ok d ≡ ok doc)
          → CanRead user doc_id db doc
      parts d e (c, same) =
          let one : d ≡ doc = ok_inj same in
          record { row = rw (sym one) e; allowed = rw (sym one) ((check-ok d).0 c) }

      to_reason : get_document user doc_id db ≡ ok doc → CanRead user doc_id db doc
      to_reason h =
          let (d, e, k) = or_raise-ok (load doc_id db) _ _ h in
          let (u, c, same) = bind-ok (check_access user d.id db) _ k in parts d e (c, same)

      of_reason : CanRead user doc_id db doc → get_document user doc_id db ≡ ok doc
      of_reason c = rw c.row (rw ((check-ok doc).1 c.allowed))
