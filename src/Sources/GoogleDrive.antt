-- ===== src/Sources/GoogleDrive.antt =====
-- backend/app/sources/google_drive.py: the connector of Google Drive, over the answers of its API. A
-- method takes the connector, whose access token a refresh replaces, and gives it back beside its
-- outcome. Answers and readings of the clock may depend on the number of the request. The JSON of an
-- answer is a record of the fields that the code reads. The loop over the pages of changes takes as
-- fuel the pages that it may ask for, and gives `none` where that is not enough.
pub mod Requests
pub mod Scope
pub mod Changes
use know_gate.Prelude.{
  ℕ, zero, suc, ◌+◌, String, Bool, true, false, not, ◌&&◌, ◌||◌, Option, none, some, List, [], ◌∷◌,
  ◌++◌, str_eq, ◌==◌, leb, ltb, any, if◌then◌else◌,
}
use know_gate.Sources.Base.{Failure, auth, rate_limit, other, Outcome, returned, raised, SourceDoc}
use know_gate.Sources.Http.{Response, content_or}
pub use know_gate.Sources.GoogleDrive.Requests.{
  Sent, answered, timed_out, broken, DriveError, connector_error, unexpected, GoogleDriveConnector,
  TokenAnswer, DriveFile, Change, ChangesPage, DriveApi, token_refresh_grace_seconds, Ended, value,
  error, Method, ◌>>=◌, ◌>>◌, give, raise, counted, send, expiry, no_token, truthy, given,
  force_refresh, ensure_token_fresh,
}
unfoldable pub use know_gate.Sources.GoogleDrive.Requests.{
  bind_ended, received, set_token, store_token, check_status, refresh_with, ensure_fresh,
  retry_unauthorized, drive_get,
}

abbrev pub no_file : DriveFile
no_file = record { name = none; mime_type = none; size = none; trashed = false }

abbrev pub no_changes : ChangesPage
no_changes = record { changes = []; next_page_token = none; new_start_page_token = none }

-- `except ConnectorError: return False`
unfoldable pub found_in : String → Ended (List String) → Ended Bool
found_in folder (value parents) = value (any (λ p. str_eq p folder) parents)
found_in folder (error (connector_error e)) = value false
found_in folder (error (unexpected e)) = error (unexpected e)

abbrev pub or_empty : Option String → String
or_empty none = ""
or_empty (some s) = s

abbrev pub tombstone : String → DriveFile → SourceDoc
tombstone file_id file = record {
  id = file_id;
  title = or_empty file.name;
  mime_type = file.mime_type;
  size_bytes = none;
  is_deleted = true;
}

abbrev pub changed : String → DriveFile → SourceDoc
changed file_id file = record {
  id = file_id;
  title = or_empty file.name;
  mime_type = file.mime_type;
  size_bytes = file.size;
  is_deleted = false;
}

abbrev pub add_if : Bool → SourceDoc → List SourceDoc → List SourceDoc
add_if wanted doc docs = if wanted then docs ++ doc ∷ [] else docs

abbrev pub Listed : Type 0
Listed = Option (List SourceDoc × Option String)

-- After a page: the next one, or the result.
unfoldable pub after_page :
    (String → List SourceDoc → Method Listed)
    → Option String
    → Option String
    → List SourceDoc
    → Method Listed
after_page again none new_start docs = give (some (docs, new_start))
after_page again (some token) new_start docs =
    if truthy token then again token docs else give (some (docs, new_start))

-- `str(start.get("startPageToken"))`
abbrev pub shown : Option String → String
shown none = "None"
shown (some token) = token

-- `validate_credentials`: what is no `ConnectorError` becomes one.
unfoldable pub validated : Ended (Unit {0}) → Ended (Unit {0})
validated (value a) = value tt
validated (error (connector_error e)) = error (connector_error e)
validated (error (unexpected e)) = error (connector_error (other e))

-- The statuses of a download.
unfoldable pub check_download : String → DriveFile → Response String → Method (String × SourceDoc)
check_download doc_id meta resp =
    if resp.status_code == 429
    then raise (rate_limit "Drive rate limit")
    else if leb 400 resp.status_code
    then raise (other "Drive download failed")
    else give (content_or "" resp.content, changed doc_id meta)

module _ (api : DriveApi) where
  unfoldable pub is_in_folder : String → String → Method Bool
  unfolding drive_get found_in
  is_in_folder file_id folder c =
      let (ended, c') = drive_get api [] "/files" (λ k token. api.parents k token file_id) c in
      (found_in folder ended, c')

  -- `self.folder_id and not await self._is_in_folder(...)`, negated
  unfoldable pub is_wanted : Option String → String → Method Bool
  unfolding is_in_folder
  is_wanted none file_id = give true
  is_wanted (some folder) file_id = if truthy folder then is_in_folder file_id folder else give true

  -- One turn of the loop over the changes of a page.
  unfoldable pub take_change : Change → List SourceDoc → Option String → Method (List SourceDoc)
  unfolding is_wanted
  take_change change docs none = give docs
  take_change change docs (some file_id) =
      if not (truthy file_id)
      then give docs
      else if change.removed || change.file.trashed
      then give (docs ++ tombstone file_id change.file ∷ [])
      else λ c.
          (is_wanted c.folder_id file_id >>= λ wanted.
          give (add_if wanted (changed file_id change.file) docs))
            c

  unfoldable pub take_changes : List Change → List SourceDoc → Method (List SourceDoc)
  unfolding take_change
  take_changes [] docs = give docs
  take_changes (change ∷ changes) docs =
      take_change change docs change.file_id >>= λ docs'. take_changes changes docs'

  -- The loop over the pages from a token that is not empty.
  unfoldable pub changes_loop : ℕ → String → List SourceDoc → Method Listed
  unfolding drive_get take_changes after_page
  changes_loop zero page_token docs = give none
  changes_loop (suc fuel) page_token docs =
      drive_get api no_changes "/changes" (λ k token. api.changes k token page_token) >>= λ page.
      take_changes page.changes docs >>= λ docs'.
      after_page (λ token found. changes_loop fuel token found) page.next_page_token
        page.new_start_page_token docs'

  unfoldable pub start_cursor : Option String → Method String
  unfolding drive_get
  start_cursor (some cursor) = give cursor
  start_cursor none = drive_get api none "/changes/startPageToken" api.start_page_token >>= λ token.
      give (shown token)

  unfoldable pub list_changes : ℕ → Option String → Method Listed
  unfolding changes_loop start_cursor
  list_changes fuel cursor = start_cursor cursor >>= λ token.
      if truthy token then changes_loop fuel token [] else give (some ([], some token))

  abbrev pub validate_credentials : Method (Unit {0})
  validate_credentials c =
      let (ended, c') = drive_get api tt "/files" api.files c in (validated ended, c')

  unfoldable pub download : String → DriveFile → Method (String × SourceDoc)
  unfolding ensure_fresh check_download retry_unauthorized received bind_ended
  download doc_id meta = do
    ensure_token_fresh api
    resp ←
        send (connector_error (other "Drive download timeout"))
          (λ k token. api.media k token doc_id)
    resp ← retry_unauthorized api (λ k token. api.media k token doc_id) resp
    check_download doc_id meta resp

  unfoldable pub fetch_doc : String → Method (String × SourceDoc)
  unfolding drive_get download
  fetch_doc doc_id =
      drive_get api no_file "/files" (λ k token. api.metadata k token doc_id) >>= λ meta.
      if meta.trashed then raise (other "Drive file is in trash") else download doc_id meta

-- `if folder_id:`
abbrev pub kept : Option String → Option String
kept none = none
kept (some folder) = if truthy folder then some folder else none

-- `config_from_oauth_tokens`, and the connector of that configuration
abbrev pub config_from_oauth_tokens :
    ℕ → String → Option String → String → String → ℕ → Option String → GoogleDriveConnector
config_from_oauth_tokens now access refresh client_id client_secret expires_in folder_id = record {
  access_token = access;
  refresh_token = refresh;
  client_id = client_id;
  client_secret = client_secret;
  token_expires_at = some (now + expires_in);
  folder_id = kept folder_id;
  requests = 0;
}
