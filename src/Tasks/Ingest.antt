-- ===== src/Tasks/Ingest.antt =====
-- `ingest_doc_task` of backend/app/tasks/ingest.py. What `ingest_document` ends in is an argument of the
-- attempt, and so is the test whether a text in lower case has a phrase. The metrics and the id of the
-- document are left out, and the texts of errors are not cut.
use know_gate.Prelude.{
  ℕ, ◌<◌, ◌≤◌, ◌≡◌, ◌≢◌, refl, String, Bool, true, false, not, ◌&&◌, ◌||◌, Option, none, some, ◌⊎◌,
  inl, inr, Bool-cases, arith, dec_lt, if◌then◌else◌,
}
use know_gate.Pipeline.Indexer.{IngestResult, IngestStatus, is_some}
use know_gate.Tasks.Celery.{
  Celery, Attempt, answered, again, crashed, after_retry, attempts, attempts-end,
}

pub data IngestRun : Type 0 where
  result : IngestResult → IngestRun
  raised : String → IngestRun

-- The dict that the task returns; only the answer of a run has a `chunk_count`.
pub record IngestAnswer : Type 0 where
  pub status : IngestStatus
  pub chunk_count : Option ℕ
  pub error : Option String

abbrev pub finished : IngestResult → IngestAnswer
finished r = record { status = r.status; chunk_count = some r.chunk_count; error = r.error }

abbrev pub ended_by : IngestStatus → String → IngestAnswer
ended_by status e = record { status = status; chunk_count = none; error = some e }

abbrev pub ingest_max_retries : ℕ
ingest_max_retries = 3

abbrev pub is_failed : IngestStatus → Bool
is_failed IngestStatus.failed = true
is_failed _ = false

-- The answer `failed` of an attempt that is not the answer of a run.
abbrev pub gives_up : Attempt IngestAnswer → Bool
gives_up (answered a) = is_failed a.status && not (is_some a.chunk_count)
gives_up again = false
gives_up (crashed e) = false

no_count : (b : Bool) → (b && false) ≡ false
no_count true = refl
no_count false = refl

module _ (celery : Celery) (mentions : String → String → Bool) where
  unfoldable pub on_error : ℕ → String → Attempt IngestAnswer
  unfolding after_retry
  on_error had e =
      if mentions "not found" e || mentions "already" e
      then answered (ended_by IngestStatus.skipped e)
      else after_retry (celery.retry ingest_max_retries had) e (ended_by IngestStatus.failed e)

  unfoldable pub of_run : {S : Type 0} → ℕ → IngestRun × S → Attempt IngestAnswer × S
  unfolding on_error
  of_run had (result r, s) = (answered (finished r), s)
  of_run had (raised e, s) = (on_error had e, s)

  -- One attempt; the state `S` is what the run changes.
  abbrev pub ingest_doc_task :
      {S : Type 0} → (ℕ → S → IngestRun × S) → ℕ → S → Attempt IngestAnswer × S
  ingest_doc_task run had s = of_run had (run had s)

  on_error-cases :
      (had : ℕ) (e : String)
      → ((had < ingest_max_retries) × (on_error had e ≡ again))
        ⊎ ((on_error had e ≢ again) × (gives_up (on_error had e) ≡ false))
  unfolding on_error
  on_error-cases had e = elim (Bool-cases (mentions "not found" e || mentions "already" e)) [
    | inl h ↦ inr (rw h (λ p. cc), rw h refl)
    | inr h ↦ elim (dec_lt had ingest_max_retries) [
      | yes below ↦ inl (below, rw (h, celery.retry_below ingest_max_retries had below) refl)
      | no above ↦
          let raises = celery.retry_above ingest_max_retries had (omega (arith, above)) in
          inr (rw (h, raises) (λ p. cc), rw (h, raises) refl)
    ]
  ]

  -- Whatever its runs do, the task ends after at most four attempts, with an answer or in an exception.
  -- An answer with the status failed is that of a run, with its count of chunks, and never the one
  -- that the task has for the case that the retries are exceeded: Celery raises the exception that it
  -- is given, and not the `MaxRetriesExceededError` that the task waits for.
  pub ingest_doc_task-end :
      {S : Type 0} (run : ℕ → S → IngestRun × S) (s : S)
      → ((attempts (ingest_doc_task run) 4 0 s).0 ≢ again)
        × (gives_up (attempts (ingest_doc_task run) 4 0 s).0 ≡ false)
        × ((attempts (ingest_doc_task run) 4 0 s).2 ≤ 4)
  unfolding of_run
  ingest_doc_task-end {S} run s =
      let ends =
        attempts-end (ingest_doc_task run) 3 (λ a. gives_up a ≡ false) cases 4 0 s (omega arith)
          (omega arith) in
      (ends.0, ends.1, omega (arith, ends.2))
    where
      of_cases :
          (had : ℕ) (r : IngestRun × S)
          → ((had < 3) × ((of_run had r).0 ≡ again))
            ⊎ (((of_run had r).0 ≢ again) × (gives_up (of_run had r).0 ≡ false))
      of_cases had (result r, s') = inr (λ p. cc, no_count (is_failed r.status))
      of_cases had (raised x, s') = on_error-cases had x

      cases :
          (had : ℕ) (s' : S)
          → ((had < 3) × ((ingest_doc_task run had s').0 ≡ again))
            ⊎ (((ingest_doc_task run had s').0 ≢ again)
                × (gives_up (ingest_doc_task run had s').0 ≡ false))
      cases had s' = of_cases had (run had s')
