-- ===== src/Tests/Sources.antt =====
-- Runs of the sync engine of backend/app/sources/sync.py.
use know_gate.Prelude.{◌≡◌, refl, true, false, none, some, List, [], ◌∷◌, arith}
use know_gate.Prelude.Dict.{put}
use know_gate.Db.Table.{find?, update_where, count_where}
use know_gate.Api.Result.{ok, reject, or_raise, ◌>>=◌}
use know_gate.Api.Documents.{get_document_preview, check_access}
use know_gate.Sources.Base.{rate_limit, returned, raised, SourceDoc, BaseSourceConnector}
use know_gate.Sources.Sync.{
  Services, Providers, Source, SourceStatus, SyncJobStatus, Store, run_source, run_sync,
  process_all, process_doc, sync_doc, conclude, finalize_job, update_log, final_status, upsert_rows,
  mark_doc_deleted, build_connector,
}
use know_gate.Sources.Sync.Loop.{lost}
use know_gate.Sources.Sync.Runs.{Counts, run_source-Counts}
use know_gate.Sources.Sync.Documents.{IsConsistent, OneRow, run_sync-IsConsistent}
use know_gate.Tests.Api.{tables, as_ada}

abbrev small : SourceDoc
small = record {
  id = "f1";
  title = "Plan";
  mime_type = none;
  size_bytes = some 3;
  is_deleted = false;
}

abbrev large : SourceDoc
large = record {
  id = "f2";
  title = "Film";
  mime_type = none;
  size_bytes = some 99;
  is_deleted = false;
}

abbrev gone : SourceDoc
gone = record { id = "f3"; title = "Old"; mime_type = none; size_bytes = none; is_deleted = true }

abbrev listed : List SourceDoc
listed = small ∷ large ∷ gone ∷ []

abbrev drive : BaseSourceConnector
drive = record {
  validate_credentials = returned tt;
  list_changes = λ _. returned (listed, some "c2");
  fetch_doc = λ _ _. returned ("text", small);
}

abbrev limited : BaseSourceConnector
limited = record drive { list_changes = λ _. raised (rate_limit "429") }

abbrev services : Services
services = record {
  upload_doc = λ _ _ _. returned tt;
  broker_accepts = λ _. true;
  new_id = λ _. "row-1";
  max_doc_size_bytes = 50;
}

abbrev providers : Providers
providers = record {
  decrypt_str = λ text. returned text;
  google_drive = λ _ _. returned drive;
  notion = λ _ _. returned limited;
}

abbrev source : Source
source = record {
  id = "s1";
  type = "google_drive";
  sync_cursor = some "c1";
  status = SourceStatus.active;
  config_encrypted = "{}";
  last_error = none;
}

abbrev store : Store
store = record {
  source = some source;
  job = record {
    status = SyncJobStatus.running;
    total_docs = 0;
    indexed_docs = 0;
    failed_docs = 0;
    error_log = [];
    is_completed = false;
  };
  documents = [];
  objects = [];
  ingest_queue = [];
  events = [];
}

partial_run :
    ((run_sync services providers store).job.status ≡ SyncJobStatus.partial)
    × ((run_sync services providers store).ingest_queue ≡ "row-1" ∷ [])
    × ((run_sync services providers store).objects ≡ ("google_drive/s1/f1", "text") ∷ [])
unfolding run_sync run_source process_all process_doc sync_doc conclude finalize_job update_log put
    final_status upsert_rows mark_doc_deleted build_connector find? update_where
partial_run = (refl, refl, refl)

run_source-Counts_example :
    Counts 3
      (lost services drive source 1 listed)
      (some "c2")
      (run_source services drive source store)
run_source-Counts_example =
    run_source-Counts services drive source store refl listed (some "c2") refl

store-IsConsistent : IsConsistent store.documents store.objects
unfolding OneRow count_where
store-IsConsistent = record { rows = λ _ _. omega arith; stored = tt }

run_sync-IsConsistent_example :
    IsConsistent
      (run_sync services providers store).documents
      (run_sync services providers store).objects
run_sync-IsConsistent_example = run_sync-IsConsistent services providers store store-IsConsistent

previewed : get_document_preview as_ada "d1" tables ≡ ok "google_drive/f1"
unfolding get_document_preview check_access or_raise reject ◌>>=◌ find?
previewed = refl
