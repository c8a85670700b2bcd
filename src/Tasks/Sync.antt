-- ===== src/Tasks/Sync.antt =====
-- backend/app/tasks/sync.py: the tasks that run the sync engine (Sources/Sync), over the table of sync
-- jobs. The ids of new jobs are drawn. What `run_sync` does to the jobs and whether it raises is an
-- argument, and so is the test whether a text in lower case has "auth". The times of a job and the
-- metrics are left out.
use know_gate.Prelude.{
  ℕ, suc, ◌≡◌, ap, String, Bool, true, false, Option, none, some, List, [], ◌∷◌, ◌++◌, map, str_eq,
  arith, if◌then◌else◌, append_assoc,
}
use know_gate.Db.Table.{select, update_where}
use know_gate.Sources.Sync.{SyncJobStatus, Source, SourceStatus}
use know_gate.Tasks.Celery.{
  Celery, Retried, rescheduled, exceeded, reraised, Attempt, answered, again, crashed, attempts,
}

pub record JobRow : Type 0 where
  pub id : String
  pub source_id : String
  pub status : SyncJobStatus
  pub triggered_by : String
  -- `error_log["_summary"]`
  pub summary : Option String
  pub is_completed : Bool

abbrev pub queued_job : String → String → String → JobRow
queued_job id source_id triggered_by = record {
  id = id;
  source_id = source_id;
  status = SyncJobStatus.queued;
  triggered_by = triggered_by;
  summary = none;
  is_completed = false;
}

-- `_create_job`
unfoldable pub create_job : String → String → String → List JobRow → List JobRow
create_job id source_id triggered_by jobs = jobs ++ queued_job id source_id triggered_by ∷ []

-- `_finalize_crashed_job` for a job that is there, where the summary keeps the text of the error
unfoldable pub finalize_crashed_job : String → String → List JobRow → List JobRow
finalize_crashed_job id e jobs =
    update_where (λ j. str_eq j.id id)
      (λ j. record j { status = SyncJobStatus.failed; summary = some e; is_completed = true }) jobs

abbrev pub sync_max_retries : ℕ
sync_max_retries = 3

-- What a run of the sync engine ends in, and the jobs after it.
pub data SyncRun : Type 0 where
  returned : List JobRow → SyncRun
  raised : String → List JobRow → SyncRun

-- After `self.retry(exc=e)`: the crashed job is finalized where the retries are exceeded.
unfoldable pub after_sync_retry :
    Retried → String → String → List JobRow → Attempt String × List JobRow
unfolding finalize_crashed_job
after_sync_retry rescheduled job_id e jobs = (again, jobs)
after_sync_retry exceeded job_id e jobs = (answered job_id, finalize_crashed_job job_id e jobs)
after_sync_retry reraised job_id e jobs = (crashed e, jobs)

append-four :
    {A : Type 0} (xs : List A) (a b c d : A)
    → (((xs ++ a ∷ []) ++ b ∷ []) ++ c ∷ []) ++ d ∷ [] ≡ xs ++ a ∷ b ∷ c ∷ d ∷ []
append-four xs a b c d = simp append_assoc

module _ (celery : Celery) (has_auth : String → Bool) where
  unfoldable pub of_sync_run : ℕ → String → SyncRun → Attempt String × List JobRow
  unfolding after_sync_retry
  of_sync_run had job_id (returned jobs) = (answered job_id, jobs)
  of_sync_run had job_id (raised e jobs) =
      if has_auth e
      then (answered job_id, jobs)
      else after_sync_retry (celery.retry sync_max_retries had) job_id e jobs

  -- One attempt: its job, then the run.
  unfoldable pub sync_source_task :
      (ℕ → String)
      → (ℕ → String → List JobRow → SyncRun)
      → String
      → String
      → ℕ
      → List JobRow
      → Attempt String × List JobRow
  unfolding create_job of_sync_run
  sync_source_task new_id run source_id triggered_by had jobs =
      of_sync_run had (new_id had)
        (run had (new_id had) (create_job (new_id had) source_id triggered_by jobs))

  -- If every run of the sync engine raises, with an error that does not speak of "auth", and leaves the
  -- jobs alone, then the task makes four attempts and raises the error. Each attempt has added a job
  -- of its own, and all four stay queued: no job is marked as failed, and none has the error.
  pub sync_source_task-queued :
      (new_id : ℕ → String) (source_id triggered_by e : String) (jobs : List JobRow)
      → has_auth e ≡ false
      → attempts
          (sync_source_task new_id (λ had job_id js. raised e js) source_id triggered_by)
          4
          0
          jobs
        ≡ (
          crashed e,
          jobs ++ map (λ had. queued_job (new_id had) source_id triggered_by) (0 ∷ 1 ∷ 2 ∷ 3 ∷ []),
          4,
        )
  unfolding attempts sync_source_task create_job
  sync_source_task-queued new_id source_id triggered_by e jobs no_auth =
      rw
        (
          no_auth,
          celery.retry_below 3 0 (omega arith),
          celery.retry_below 3 1 (omega arith),
          celery.retry_below 3 2 (omega arith),
          celery.retry_above 3 3 (omega arith),
        )
        (ap (λ js. (crashed e, js, 4)) (append-four jobs _ _ _ _))

-- `_list_active_source_ids`
abbrev pub is_active_status : SourceStatus → Bool
is_active_status SourceStatus.active = true
is_active_status _ = false

unfoldable pub list_active_source_ids : List Source → List String
list_active_source_ids sources = map (λ s. s.id) (select (λ s. is_active_status s.status) sources)

-- `sync_all_sources_task`: a task for each active source joins the queue of the broker, and the ids of
-- the tasks are returned.
unfoldable pub sync_all_sources_task :
    (ℕ → String) → ℕ → List String → List (String × String) → List String × List (String × String)
sync_all_sources_task task_id k [] queue = ([], queue)
sync_all_sources_task task_id k (sid ∷ sids) queue =
    let rest = sync_all_sources_task task_id (suc k) sids (queue ++ (sid, "scheduled") ∷ []) in
    (task_id k ∷ rest.0, rest.1)
