-- ===== src/Sources/Sync.antt =====
-- backend/app/sources/sync.py: one run of the sync engine for a source. The store holds what the run
-- reads and writes: the source, the job, the table of documents, the objects of the storage, the
-- ingest queue and the published events. The statements on the database are taken to succeed, as is
-- the choice of an id for a new row. An error log keeps the cause where the code keeps its text.
pub mod State
pub mod Endings
pub mod Keeps
pub mod Documents
pub mod Loop
pub mod Runs
use Prim.Native.String.{◌++◌ as concat}
use know_gate.Prelude.{
  ℕ, zero, suc, ◌+◌, ◌-◌, String, Bool, true, false, not, ◌&&◌, Option, none, some, List, [], ◌∷◌,
  ◌++◌, str_eq, ◌==◌, ltb, if◌then◌else◌, any, length,
}
use know_gate.Prelude.Dict.{Dict, put}
use know_gate.Db.{Document, DocumentStatus}
use know_gate.Db.Table.{find?, update_where}
use know_gate.Sources.Base.{
  Failure, auth, rate_limit, other, Outcome, returned, raised, SourceDoc, BaseSourceConnector,
}
pub use know_gate.Sources.Sync.State.{
  SyncJobStatus, SourceStatus, Cause, exception, too_large, source_not_found, SourceError, Source,
  SyncJob, Stage, Event, Progress, Store, is_row, mark_deleted, refresh, new_row,
}
unfoldable pub use know_gate.Sources.Sync.State.{mark_doc_deleted, upsert_rows}
pub use know_gate.Sources.Sync.Endings.{end_job, mark_auth_failed, end_auth, last_error_after}
unfoldable pub use know_gate.Sources.Sync.Endings.{
  update_log, finalize_job, on_invalid, on_unlisted, final_status,
}

abbrev pub exceeds : Option ℕ → ℕ → Bool
exceeds none limit = false
exceeds (some size) limit = not (size == 0) && ltb limit size

abbrev pub size_of : Option ℕ → ℕ
size_of none = 0
size_of (some size) = size

abbrev pub key_of : Source → String → String
key_of source doc_id = concat source.type (concat "/" (concat source.id (concat "/" doc_id)))

abbrev pub enqueue : Bool → Option Document → List String → List String
enqueue accepted none queue = queue
enqueue accepted (some row) queue = if accepted then queue ++ row.id ∷ [] else queue

-- What the run is given: the storage, the broker, the ids of new rows, and the limit.
pub record Services : Type 0 where
  pub upload_doc : ℕ → String → String → Outcome (Unit {0})
  pub broker_accepts : ℕ → Bool
  pub new_id : ℕ → String
  pub max_doc_size_bytes : ℕ

abbrev pub publish : Stage → ℕ → ℕ → Progress → Progress
publish stage idx total p = record p {
  events =
      p.events ++ record { stage = stage; current = idx; total = total; failed = p.failed } ∷ [];
}

abbrev pub fail : Stage → ℕ → ℕ → String → Cause → Progress → Progress
fail stage idx total doc_id cause p =
    publish stage idx total
      (record p { failed = p.failed + 1; error_log = put doc_id cause p.error_log })

abbrev pub store_doc : Services → Source → ℕ → String → String → SourceDoc → Progress → Progress
store_doc services source idx doc_id raw current p = record p {
  objects = p.objects ++ (key_of source doc_id, raw) ∷ [];
  documents =
      upsert_rows (services.new_id idx) source.type current (key_of source doc_id) p.documents;
  ingest_queue =
      enqueue (services.broker_accepts idx)
        (find? (is_row source.type current.id) (
          upsert_rows (services.new_id idx) source.type current (key_of source doc_id) p.documents))
        p.ingest_queue;
}

-- The body of `try`: fetch, upload, upsert and enqueue, or the failure that ends it.
abbrev pub after_upload : Outcome (Unit {0}) → Progress → Outcome Progress
after_upload (raised e) p = raised e
after_upload (returned _) p = returned p

abbrev pub after_fetch :
    Services → Source → ℕ → String → Outcome (String × SourceDoc) → Progress → Outcome Progress
after_fetch services source idx doc_id (raised e) p = raised e
after_fetch services source idx doc_id (returned (raw, current)) p =
    after_upload (services.upload_doc idx (key_of source doc_id) raw)
      (store_doc services source idx doc_id raw current p)

unfoldable pub sync_doc :
    Services → BaseSourceConnector → Source → ℕ → String → Progress → Outcome Progress
sync_doc services connector source idx doc_id p =
    after_fetch services source idx doc_id (connector.fetch_doc idx doc_id) p

-- The `except` of the loop, or its last event.
abbrev pub settle : ℕ → ℕ → String → Progress → Outcome Progress → Progress
settle idx total doc_id p (returned p') = publish Stage.fetch idx total p'
settle idx total doc_id p (raised e) = fail Stage.failed idx total doc_id (exception e) p

-- One turn of the loop over the documents.
unfoldable pub process_doc :
    Services → BaseSourceConnector → Source → ℕ → ℕ → SourceDoc → Progress → Progress
unfolding sync_doc
process_doc services connector source total idx doc p =
    if doc.is_deleted
    then publish Stage.delete idx total
        (record p { documents = mark_doc_deleted source.type doc.id p.documents })
    else if exceeds doc.size_bytes services.max_doc_size_bytes
    then fail Stage.skip idx total doc.id (too_large (size_of doc.size_bytes)) p
    else settle idx total doc.id p (sync_doc services connector source idx doc.id p)

unfoldable pub process_all :
    Services → BaseSourceConnector → Source → ℕ → ℕ → List SourceDoc → Progress → Progress
process_all services connector source total idx [] p = p
process_all services connector source total idx (doc ∷ docs) p =
    process_all services connector source total (suc idx) docs
      (process_doc services connector source total idx doc p)

-- What `build_connector` calls: the decryption, and for each type of source the constructor of its
-- connector on the deserialized configuration.
pub record Providers : Type 0 where
  pub decrypt_str : String → Outcome String
  pub google_drive : String → String → Outcome BaseSourceConnector
  pub notion : String → String → Outcome BaseSourceConnector

unfoldable pub build_connector : Providers → Source → Outcome BaseSourceConnector
build_connector providers source = elim (providers.decrypt_str source.config_encrypted) [
  | raised e ↦ raised e
  | returned plain ↦
      if str_eq source.type "google_drive"
      then providers.google_drive source.id plain
      else if str_eq source.type "notion"
      then providers.notion source.id plain
      else raised (other "Unknown source type")
]

-- The cursor, the job and the source after the loop.
unfoldable pub conclude : ℕ → Option String → Source → Progress → Store → Store
unfolding final_status finalize_job
conclude total next_cursor source p store = record {
  source = some (record source {
    sync_cursor = next_cursor;
    last_error = last_error_after p.failed p.error_log source;
  });
  job =
      finalize_job (final_status total p.failed) p.error_log (total - p.failed) p.failed
        (record store.job { total_docs = total });
  documents = p.documents;
  objects = p.objects;
  ingest_queue = p.ingest_queue;
  events = (publish Stage.complete total total p).events;
}

abbrev pub started : ℕ → Store → Progress
started total store = publish Stage.start 0 total (record {
  documents = store.documents;
  objects = store.objects;
  ingest_queue = store.ingest_queue;
  events = store.events;
  failed = 0;
  error_log = [];
})

abbrev pub after_listing :
    Services
    → BaseSourceConnector
    → Source
    → Store
    → Outcome (List SourceDoc × Option String)
    → Store
after_listing services connector source store (raised e) = on_unlisted e source store
after_listing services connector source store (returned (docs, next_cursor)) =
    conclude (length docs) next_cursor source
      (process_all services connector source (length docs) 1 docs (started (length docs) store))
      store

abbrev pub after_validation :
    Services → BaseSourceConnector → Source → Store → Outcome (Unit {0}) → Store
after_validation services connector source store (raised e) = on_invalid e source store
after_validation services connector source store (returned _) =
    after_listing services connector source store (connector.list_changes source.sync_cursor)

-- The run once the connector is built.
unfoldable pub run_source : Services → BaseSourceConnector → Source → Store → Store
run_source services connector source store =
    after_validation services connector source store connector.validate_credentials

abbrev pub after_build : Services → Store → Source → Outcome BaseSourceConnector → Store
after_build services store source (raised e) = end_job SyncJobStatus.failed (exception e) store
after_build services store source (returned connector) = run_source services connector source store

abbrev pub after_load : Services → Providers → Store → Option Source → Store
after_load services providers store none = end_job SyncJobStatus.failed source_not_found store
after_load services providers store (some source) =
    after_build services store source (build_connector providers source)

unfoldable pub run_sync : Services → Providers → Store → Store
run_sync services providers store = after_load services providers store store.source
