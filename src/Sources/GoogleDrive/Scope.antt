-- ===== src/Sources/GoogleDrive/Scope.antt =====
-- What the API of Google Drive serves, page after page, and what of it a connector lists.
use know_gate.Prelude.{
  ◌+◌, ◌<◌, ℕ, zero, suc, ◌≡◌, refl, sym, ap, ◌∙◌, String, Bool, true, false, not, ◌||◌, Option,
  none, some, List, [], ◌∷◌, ◌++◌, str_eq, any, if◌then◌else◌, append_assoc,
}
use know_gate.Sources.Base.{SourceDoc}
use know_gate.Sources.GoogleDrive.{
  Sent, answered, GoogleDriveConnector, DriveApi, Change, ChangesPage, or_empty, truthy, given,
}

abbrev pub all_right : {A : Type 0} → A → Sent A
all_right a = answered (record { status_code = 200; content = some a })

-- The API answers each request for a page of changes, for the parents of a file and for the start,
-- whichever the token.
pub record Serves (api : DriveApi) (page : String → ChangesPage) (parents : String → List String)
    (start : Option String) : Type 0 where
  pub changes_lem :
      (k : ℕ) (token page_token : String)
      → api.changes k token page_token ≡ all_right (page page_token)
  pub parents_lem :
      (k : ℕ) (token file_id : String) → api.parents k token file_id ≡ all_right (parents file_id)
  pub start_lem : (k : ℕ) (token : String) → api.start_page_token k token ≡ all_right start

-- A token that needs no refresh at any reading of the clock: without a time of expiry, or with one that
-- is always more than five minutes ahead.
abbrev pub IsFresh : DriveApi → Option ℕ → Type 0
IsFresh api none = Unit
IsFresh api (some expires) = (k : ℕ) → api.now k + 300 < expires

-- The connector after some requests.
abbrev pub at_request : ℕ → GoogleDriveConnector → GoogleDriveConnector
at_request k c = record c { requests = k }

module _ (page : String → ChangesPage) where
  -- From a page on, the changes of the pages that follow one another, `n` after the first, and the
  -- start of the next listing that the last one names.
  pub data Follows : String → ℕ → List Change → Option String → Type 0 where
    final_page :
        {t : String}
        → given (page t).next_page_token ≡ false
        → Follows t zero (page t).changes (page t).new_start_page_token
    next_page :
        {t : String} {n : ℕ} {rest : List Change} {s : Option String} (u : String)
        → (page t).next_page_token ≡ some u
        → truthy u ≡ true
        → Follows u n rest s
        → Follows t (suc n) ((page t).changes ++ rest) s

module _ (parents : String → List String) where
  -- Whether a file lies in the folder that the connector is limited to.
  abbrev pub in_scope : Option String → String → Bool
  in_scope none file_id = true
  in_scope (some folder) file_id =
      if truthy folder then any (λ p. str_eq p folder) (parents file_id) else true

  -- What a change is listed as.
  unfoldable pub doc_of : Option String → Change → Option String → List SourceDoc
  doc_of folder change none = []
  doc_of folder change (some file_id) =
      if not (truthy file_id)
      then []
      else if change.removed || change.file.trashed
      then record {
        id = file_id;
        title = or_empty change.file.name;
        mime_type = change.file.mime_type;
        size_bytes = none;
        is_deleted = true;
      }
        ∷ []
      else if in_scope folder file_id
      then record {
        id = file_id;
        title = or_empty change.file.name;
        mime_type = change.file.mime_type;
        size_bytes = change.file.size;
        is_deleted = false;
      }
        ∷ []
      else []

  unfoldable pub docs_of : Option String → List Change → List SourceDoc
  unfolding doc_of
  docs_of folder [] = []
  docs_of folder (change ∷ changes) = doc_of folder change change.file_id ++ docs_of folder changes

  pub docs_of-append :
      (folder : Option String) (xs ys : List Change)
      → docs_of folder (xs ++ ys) ≡ docs_of folder xs ++ docs_of folder ys
  unfolding docs_of
  docs_of-append folder [] ys = refl
  docs_of-append folder (x ∷ xs) ys =
      ap (λ ds. doc_of folder x x.file_id ++ ds) (docs_of-append folder xs ys)
      ∙ sym (append_assoc (doc_of folder x x.file_id) (docs_of folder xs) (docs_of folder ys))
