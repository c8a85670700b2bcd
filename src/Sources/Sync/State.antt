-- ===== src/Sources/Sync/State.antt =====
-- What a run of backend/app/sources/sync.py reads and writes, and its statements on the table of
-- documents.
use know_gate.Prelude.{
  ℕ, String, Bool, ◌&&◌, Option, none, some, List, [], ◌∷◌, ◌++◌, str_eq, if◌then◌else◌, any,
}
use know_gate.Prelude.Dict.{Dict}
use know_gate.Db.{Document, DocumentStatus}
use know_gate.Db.Table.{update_where}
use know_gate.Sources.Base.{Failure, SourceDoc}

pub data SyncJobStatus : Type 0 where
  queued running completed failed partial : SyncJobStatus

pub data SourceStatus : Type 0 where
  active auth_failed paused archived : SourceStatus

-- The causes in an error log: an exception, an oversized document, or a missing source.
pub data Cause : Type 0 where
  exception : Failure → Cause
  too_large : ℕ → Cause
  source_not_found : Cause

pub data SourceError : Type 0 where
  message : Failure → SourceError
  log : Dict Cause → SourceError

pub record Source : Type 0 where
  pub id : String
  pub type : String
  pub sync_cursor : Option String
  pub status : SourceStatus
  pub config_encrypted : String
  pub last_error : Option SourceError

pub record SyncJob : Type 0 where
  pub status : SyncJobStatus
  pub total_docs : ℕ
  pub indexed_docs : ℕ
  pub failed_docs : ℕ
  pub error_log : Dict Cause
  pub is_completed : Bool

pub data Stage : Type 0 where
  start delete skip fetch failed complete : Stage

pub record Event : Type 0 where
  pub stage : Stage
  pub current : ℕ
  pub total : ℕ
  pub failed : ℕ

-- What the loop over the documents changes.
pub record Progress : Type 0 where
  pub documents : List Document
  pub objects : List (String × String)
  pub ingest_queue : List String
  pub events : List Event
  pub failed : ℕ
  pub error_log : Dict Cause

pub record Store : Type 0 where
  pub source : Option Source
  pub job : SyncJob
  pub documents : List Document
  pub objects : List (String × String)
  pub ingest_queue : List String
  pub events : List Event

-- `Document.source == source_type, Document.source_id == doc_id`
abbrev pub is_row : String → String → Document → Bool
is_row source_type doc_id d = str_eq d.source source_type && str_eq d.source_id doc_id

abbrev pub mark_deleted : Document → Document
mark_deleted d = record d { status = DocumentStatus.deleted }

unfoldable pub mark_doc_deleted : String → String → List Document → List Document
mark_doc_deleted source_type doc_id documents =
    update_where (is_row source_type doc_id) mark_deleted documents

abbrev pub refresh : SourceDoc → String → Document → Document
refresh doc key d = record d {
  title = doc.title;
  mime_type = doc.mime_type;
  size_bytes = doc.size_bytes;
  status = DocumentStatus.discovered;
  object_key = some key;
}

abbrev pub new_row : String → String → SourceDoc → String → Document
new_row row_id source_type doc key = record {
  id = row_id;
  source = source_type;
  source_id = doc.id;
  title = doc.title;
  owner = none;
  mime_type = doc.mime_type;
  size_bytes = doc.size_bytes;
  status = DocumentStatus.discovered;
  object_key = some key;
  indexed_at = none;
  error_message = none;
}

-- `INSERT ... ON CONFLICT (source, source_id) DO UPDATE`
unfoldable pub upsert_rows : String → String → SourceDoc → String → List Document → List Document
upsert_rows row_id source_type doc key documents =
    if any (is_row source_type doc.id) documents
    then update_where (is_row source_type doc.id) (refresh doc key) documents
    else documents ++ new_row row_id source_type doc key ∷ []
