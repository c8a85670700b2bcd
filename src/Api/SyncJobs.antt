-- ===== src/Api/SyncJobs.antt =====
-- backend/app/api/v1/sync_jobs.py: one job, its retry, and the stream of its progress. A stream is what
-- is sent for the polls of the loop: each has the message that the channel gave, the reading of the
-- clock and the status of the job in the database. The messages are JSON objects.
use know_gate.Prelude.{
  ℕ, ◌+◌, String, Bool, true, false, not, Option, none, some, List, [], ◌∷◌, ◌++◌, str_eq, ltb,
  if◌then◌else◌,
}
use know_gate.Db.Table.{find?}
use know_gate.Auth.Permissions
use know_gate.Auth.Permissions.{CurrentUser}
use know_gate.Api.Result.{
  Result, ok, api_error, reject, or_raise, require_permission, not_found, invalid_state, ◌>>=◌,
  ◌>>◌,
}
use know_gate.Sources.Sync.{SyncJobStatus, SourceStatus}
use know_gate.Tasks.Sync.{JobRow}
use know_gate.Api.Sources.{SourcesDb, find_source, enqueue_sync}

abbrev pub find_job : String → SourcesDb → Option JobRow
find_job job_id db = find? (λ j. str_eq j.id job_id) db.jobs

unfoldable pub get_sync_job : CurrentUser → String → SourcesDb → Result JobRow
get_sync_job user job_id db = do
  require_permission user Permissions.manage_sources
  or_raise (find_job job_id db) (api_error 404 not_found)

-- `job.status in (FAILED, PARTIAL)`
abbrev pub can_retry : SyncJobStatus → Bool
can_retry SyncJobStatus.failed = true
can_retry SyncJobStatus.partial = true
can_retry _ = false

abbrev pub is_archived : SourceStatus → Bool
is_archived SourceStatus.archived = true
is_archived _ = false

unfoldable pub retry_sync_job : CurrentUser → String → SourcesDb → Result SourcesDb
retry_sync_job user job_id db = do
  require_permission user Permissions.manage_sources
  job ← or_raise (find_job job_id db) (api_error 404 not_found)
  reject (not (can_retry job.status)) (api_error 409 invalid_state)
  source ← or_raise (find_source job.source_id db) (api_error 404 not_found)
  reject (is_archived source.status) (api_error 409 invalid_state)
  ok (enqueue_sync source.id "retry" db)

-- One message of the stream: its event, and the status of the job where it has one.
pub data Sent : Type 0 where
  error : Sent
  snapshot terminal : SyncJobStatus → Sent
  forwarded : String → Sent
  ping : ℕ → Sent

pub record Poll : Type 0 where
  -- The `event` of the message, if there is a message; "progress" where it has none.
  pub message : Option (Option String)
  pub now : ℕ
  pub job : Option SyncJobStatus

abbrev pub event_of : Option String → String
event_of none = "progress"
event_of (some event) = event

-- `job.status in (COMPLETED, FAILED)`
abbrev pub is_done : SyncJobStatus → Bool
is_done SyncJobStatus.completed = true
is_done SyncJobStatus.failed = true
is_done _ = false

abbrev pub job_done : Option SyncJobStatus → Bool
job_done none = false
job_done (some status) = is_done status

-- The message forwarded, and whether it ends the stream.
abbrev pub forward : Option (Option String) → List Sent
forward none = []
forward (some event) = forwarded (event_of event) ∷ []

abbrev pub ends_by_message : Option (Option String) → Bool
ends_by_message none = false
ends_by_message (some event) = str_eq (event_of event) "terminal"

abbrev pub last_words : Option SyncJobStatus → List Sent
last_words none = []
last_words (some status) = if is_done status then terminal status ∷ [] else []

abbrev pub keep_alive : ℕ → ℕ → List Sent
keep_alive last_ping now = if ltb (last_ping + 15) now then ping now ∷ [] else []

-- The loop over the polls: what is sent, and whether the stream was closed.
unfoldable pub stream_loop : ℕ → List Poll → List Sent × Bool
stream_loop last_ping [] = ([], false)
stream_loop last_ping (p ∷ polls) =
    let rest = stream_loop (if ltb (last_ping + 15) p.now then p.now else last_ping) polls in
    if ends_by_message p.message
    then (forward p.message, true)
    else if job_done p.job
    then (forward p.message ++ (keep_alive last_ping p.now ++ last_words p.job), true)
    else (forward p.message ++ (keep_alive last_ping p.now ++ rest.0), rest.1)

-- `event_generator`, from the job that is read first
unfoldable pub stream_sync_job : ℕ → Option SyncJobStatus → List Poll → List Sent × Bool
unfolding stream_loop
stream_sync_job started none polls = (error ∷ [], true)
stream_sync_job started (some status) polls =
    if is_done status
    then (snapshot status ∷ terminal status ∷ [], true)
    else (snapshot status ∷ (stream_loop started polls).0, (stream_loop started polls).1)
