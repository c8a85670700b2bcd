-- ===== src/Tests/Jobs.antt =====
-- Runs of the tasks of backend/app/tasks and of the endpoints for sources and sync jobs.
use know_gate.Prelude.{
  Option, ℕ, ◌≤◌, ◌≡◌, ◌≢◌, refl, sym, String, false, none, some, List, [], ◌∷◌, ◌++◌, map, length,
  arith, ◌<◌, ◌==◌, append-nil, append_assoc, ltb, if◌then◌else◌,
}
use know_gate.Auth.Permissions.{CurrentUser}
use know_gate.Auth.Permissions
use know_gate.Pipeline.Indexer.{ChunkRow}
use know_gate.Pipeline.VectorIndexer.{Collection}
use know_gate.Sources.Sync.{SourceStatus, SyncJobStatus}
use know_gate.Tasks.Celery.{Celery, Retried, rescheduled, reraised, again, crashed, attempts}
use know_gate.Tasks.Ingest.{gives_up, IngestRun, raised, ingest_doc_task, ingest_doc_task-end}
use know_gate.Tasks.Sync.{JobRow, queued_job, sync_source_task, sync_source_task-queued}
use know_gate.Tasks.Sync
use know_gate.Pipeline.Chunker.{Text}
use know_gate.Tasks.Reembed.{ReembedPoint, PointsOf, reembed_all, reembed_all-upsert}
use know_gate.Api.Sources.{SourceRow, SourcesDb}

-- A broker that counts retries as Celery does.
abbrev counts : ℕ → ℕ → Retried
counts allowed had = if ltb had allowed then rescheduled else reraised

counts_below : (allowed had : ℕ) → had < allowed → counts allowed had ≡ rescheduled
counts_below allowed had h = ground arith

counts_above : (allowed had : ℕ) → allowed ≤ had → counts allowed had ≡ reraised
counts_above allowed had h = ground arith

abbrev broker : Celery
broker = record { retry = counts; retry_below = counts_below; retry_above = counts_above }

abbrev always_down : {S : Type 0} → ℕ → S → IngestRun × S
always_down had s = (raised "connection refused", s)

ingest_doc_task-end_example :
    ((attempts {S = ℕ} (ingest_doc_task broker (λ phrase text. false) always_down) 4 0 7).0 ≢ again)
    × (gives_up
          (attempts {S = ℕ} (ingest_doc_task broker (λ phrase text. false) always_down) 4 0 7).0
        ≡ false)
    × ((attempts {S = ℕ} (ingest_doc_task broker (λ phrase text. false) always_down) 4 0 7).2 ≤ 4)
ingest_doc_task-end_example = ingest_doc_task-end broker (λ phrase text. false) always_down 7

abbrev job_id : ℕ → String
job_id had = if had == 0 then "j0" else if had == 1 then "j1" else if had == 2 then "j2" else "j3"

sync_source_task-queued_example :
    attempts
      (sync_source_task broker
        (λ text. false)
        job_id
        (λ had id js. Sync.raised "db down" js)
        "s1"
        "manual")
      4
      0
      []
    ≡ (
      crashed "db down",
      map (λ had. queued_job (job_id had) "s1" "manual") (0 ∷ 1 ∷ 2 ∷ 3 ∷ []),
      4,
    )
sync_source_task-queued_example =
    sync_source_task-queued broker (λ text. false) job_id "s1" "manual" "db down" [] refl

-- A collection that keeps all that is written.
abbrev kept : {P : Type 0} → Collection P
kept {P} = record {
  Store = List P;
  upsert = λ ps s. s ++ ps;
  upsert-nil = λ s. append-nil s;
  upsert-append = λ ps qs s. sym (append_assoc s ps qs);
}

abbrev chunk_row : ChunkRow
chunk_row = record {
  id = "c1";
  document_id = "d1";
  section_title = "";
  chunk_text = 72 ∷ 105 ∷ [];
  token_count = 1;
  page_number = none;
  language = "en";
  chunk_index = 0;
  qdrant_point_id = "q1";
}

-- The embedder gives the length of a text.
abbrev embed_lengths : List Text → Option (List ℕ)
embed_lengths texts = some (map (λ t. length t) texts)

reembed_all-upsert_example :
    (points : List (ReembedPoint ℕ)) × PointsOf
      (λ d i. d)
      embed_lengths
      kept
      (λ t. length t)
      (λ texts. refl)
      (chunk_row ∷ [])
      points
    × (reembed_all (λ d i. d) embed_lengths kept (chunk_row ∷ []) []
        ≡ (some (length (chunk_row ∷ [])), [] ++ points))
reembed_all-upsert_example =
    reembed_all-upsert (λ d i. d) embed_lengths kept (λ t. length t) (λ texts. refl)
      (chunk_row ∷ []) []

abbrev drive_source : SourceRow
drive_source = record {
  id = "s1";
  name = "Drive";
  type = "google_drive";
  config_encrypted = "x";
  status = SourceStatus.active;
  last_sync_at = some 100;
  created_by = "u1";
}

abbrev failed_job : JobRow
failed_job = record (queued_job "j1" "s1" "manual") { status = SyncJobStatus.failed }

abbrev sources_db : SourcesDb
sources_db = record { sources = drive_source ∷ []; jobs = failed_job ∷ []; queue = [] }
