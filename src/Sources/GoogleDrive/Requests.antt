-- ===== src/Sources/GoogleDrive/Requests.antt =====
-- The requests of the connector of backend/app/sources/google_drive.py: what the API answers, the access
-- token and its refresh, and `_drive_get`.
use know_gate.Prelude.{
  ℕ, suc, ◌+◌, String, Bool, false, not, Option, none, some, List, str_eq, ◌==◌, leb, ltb,
  if◌then◌else◌,
}
use know_gate.Sources.Base.{Failure, auth, rate_limit, other}
use know_gate.Sources.Http.{Response, content_or}

-- What a request ends in: a response, `httpx.TimeoutException`, or another exception of httpx.
pub data Sent (A : Type 0) : Type 0 where
  answered : Response A → Sent A
  timed_out : Sent A
  broken : String → Sent A

-- A `ConnectorError` of some kind, or an exception that is none.
pub data DriveError : Type 0 where
  connector_error : Failure → DriveError
  unexpected : String → DriveError

pub record GoogleDriveConnector : Type 0 where
  pub access_token : String
  pub refresh_token : Option String
  pub client_id : String
  pub client_secret : String
  pub token_expires_at : Option ℕ
  pub folder_id : Option String
  -- The requests that it has sent.
  pub requests : ℕ

-- The answer to a refresh: `access_token` and `expires_in`.
pub record TokenAnswer : Type 0 where
  pub access_token : Option String
  pub expires_in : Option ℕ

pub record DriveFile : Type 0 where
  pub name : Option String
  pub mime_type : Option String
  -- The number that the text of `size` reads; a text that is missing or empty is none.
  pub size : Option ℕ
  pub trashed : Bool

-- An entry of `changes`; a missing file is `{}`.
pub record Change : Type 0 where
  pub file_id : Option String
  pub removed : Bool
  pub file : DriveFile

pub record ChangesPage : Type 0 where
  pub changes : List Change
  pub next_page_token : Option String
  pub new_start_page_token : Option String

-- The API of Drive: each request has its number and the access token.
pub record DriveApi : Type 0 where
  pub now : ℕ → ℕ
  pub refresh : ℕ → String → String → String → Sent TokenAnswer
  pub files : ℕ → String → Sent (Unit {0})
  pub start_page_token : ℕ → String → Sent (Option String)
  pub changes : ℕ → String → String → Sent ChangesPage
  pub parents : ℕ → String → String → Sent (List String)
  pub metadata : ℕ → String → String → Sent DriveFile
  pub media : ℕ → String → String → Sent String

abbrev pub token_refresh_grace_seconds : ℕ
token_refresh_grace_seconds = 300

-- A method of the connector.
pub data Ended (A : Type 0) : Type 0 where
  value : A → Ended A
  error : DriveError → Ended A

abbrev pub Method : Type 0 → Type 0
Method A = GoogleDriveConnector → Ended A × GoogleDriveConnector

unfoldable pub bind_ended :
    {A B : Type 0}
    → Ended A × GoogleDriveConnector
    → (A → Method B)
    → Ended B × GoogleDriveConnector
bind_ended (error e, c) next = (error e, c)
bind_ended (value a, c) next = next a c

infixl 5 ◌>>=◌ ◌>>◌
abbrev pub ◌>>=◌ : {A B : Type 0} → Method A → (A → Method B) → Method B
◌>>=◌ m next c = bind_ended (m c) next

abbrev pub ◌>>◌ : {B : Type 0} → Method (Unit {0}) → Method B → Method B
m >> next = m >>= λ _. next

abbrev pub give : {A : Type 0} → A → Method A
give a c = (value a, c)

abbrev pub raise : {A : Type 0} → Failure → Method A
raise e c = (error (connector_error e), c)

abbrev pub counted : GoogleDriveConnector → GoogleDriveConnector
counted c = record c { requests = suc c.requests }

-- `client.get` with the header of the access token; a timeout is what `catch` makes of it.
unfoldable pub received : {A : Type 0} → DriveError → Sent A → Ended (Response A)
received on_timeout (answered resp) = value resp
received on_timeout timed_out = error on_timeout
received on_timeout (broken e) = error (unexpected e)

abbrev pub send : {A : Type 0} → DriveError → (ℕ → String → Sent A) → Method (Response A)
send on_timeout ask c = (received on_timeout (ask c.requests c.access_token), counted c)

abbrev pub expiry : Option ℕ → ℕ
expiry none = 3600
expiry (some seconds) = seconds

abbrev pub no_token : TokenAnswer
no_token = record { access_token = none; expires_in = none }

-- The truth of a text, and of one that may be None.
abbrev pub truthy : String → Bool
truthy s = not (str_eq s "")

abbrev pub given : Option String → Bool
given none = false
given (some s) = truthy s

-- `data["access_token"]`, and the expiry from now on.
unfoldable pub set_token : ℕ → Option String → Option ℕ → Method (Unit {0})
set_token now none seconds c = (error (unexpected "access_token"), c)
set_token now (some token) seconds c =
    (value tt, record c { access_token = token; token_expires_at = some (now + expiry seconds) })

-- `_force_refresh` from the answer to its request on.
unfoldable pub store_token : ℕ → Sent TokenAnswer → Method (Unit {0})
unfolding set_token
store_token now timed_out = λ c. (error (unexpected "timeout"), c)
store_token now (broken e) = λ c. (error (unexpected e), c)
store_token now (answered resp) =
    if leb 400 resp.status_code
    then raise (auth "Drive token refresh failed")
    else set_token now (content_or no_token resp.content).access_token
        (content_or no_token resp.content).expires_in

-- What the status of a response raises, but for 401.
unfoldable pub check_status : {A : Type 0} → A → String → Response A → Method A
check_status nothing path resp =
    if resp.status_code == 403
    then raise (auth path)
    else if resp.status_code == 429
    then raise (rate_limit path)
    else if leb 400 resp.status_code
    then raise (other path)
    else give (content_or nothing resp.content)

module _ (api : DriveApi) where
  unfoldable pub refresh_with : Option String → Method (Unit {0})
  unfolding store_token
  refresh_with none = raise (auth "Drive refresh token missing; re-auth required")
  refresh_with (some token) =
      if truthy token
      then (λ c.
          store_token (api.now c.requests)
            (api.refresh c.requests c.client_id c.client_secret token) (counted c))
      else raise (auth "Drive refresh token missing; re-auth required")

  abbrev pub force_refresh : Method (Unit {0})
  force_refresh c = refresh_with c.refresh_token c

  -- `_ensure_token_fresh` by the expiry and the refresh token.
  unfoldable pub ensure_fresh : Option ℕ → Option String → Method (Unit {0})
  ensure_fresh none token c = (value tt, c)
  ensure_fresh (some expires) none c = (value tt, c)
  ensure_fresh (some expires) (some token) c =
      if ltb (api.now c.requests + token_refresh_grace_seconds) expires
      then (value tt, c)
      else force_refresh c

  abbrev pub ensure_token_fresh : Method (Unit {0})
  ensure_token_fresh c = ensure_fresh c.token_expires_at c.refresh_token c

  -- One more attempt with a new token, after a 401.
  unfoldable pub retry_unauthorized :
      {A : Type 0} → (ℕ → String → Sent A) → Response A → Method (Response A)
  retry_unauthorized ask resp =
      if resp.status_code == 401
      then (force_refresh >> send (unexpected "timeout") ask)
      else give resp

  -- `_drive_get`
  unfoldable pub drive_get : {A : Type 0} → A → String → (ℕ → String → Sent A) → Method A
  unfolding check_status retry_unauthorized ensure_fresh refresh_with received bind_ended
  drive_get nothing path ask = do
    ensure_token_fresh
    resp ← send (connector_error (other path)) ask
    resp ← retry_unauthorized ask resp
    check_status nothing path resp
