-- ===== src/Sources/Sync/Endings.antt =====
-- How a run of backend/app/sources/sync.py ends: `_finalize_job` and `_mark_source_status`, and the handlers
-- of the exceptions that end it early.
use know_gate.Prelude.{
  ℕ, zero, suc, ◌-◌, true, Option, none, some, [], ◌∷◌, ◌==◌, ltb, if◌then◌else◌,
}
use know_gate.Prelude.Dict.{Dict, put}
use know_gate.Sources.Base.{Failure, auth, rate_limit}
use know_gate.Sources.Sync.State.{
  SyncJobStatus, SourceStatus, Cause, exception, SourceError, Source, SyncJob, Store,
}

-- `dict.update`
unfoldable pub update_log : Dict Cause → Dict Cause → Dict Cause
update_log old [] = old
update_log old ((k, c) ∷ new) = update_log (put k c old) new

unfoldable pub finalize_job : SyncJobStatus → Dict Cause → ℕ → ℕ → SyncJob → SyncJob
unfolding update_log
finalize_job status errors done lost job = record job {
  status = status;
  indexed_docs = done;
  failed_docs = lost;
  error_log = update_log job.error_log errors;
  is_completed = true;
}

-- `_finalize_job` with the text of one error.
abbrev pub end_job : SyncJobStatus → Cause → Store → Store
end_job status cause store = record store {
  job = finalize_job status (("_summary", cause) ∷ []) 0 0 store.job;
}

abbrev pub mark_auth_failed : Failure → Source → Source
mark_auth_failed e source = record source {
  status = SourceStatus.auth_failed;
  last_error = some (SourceError.message e);
}

-- `_mark_source_status` and then `_finalize_job`.
abbrev pub end_auth : Failure → Source → Store → Store
end_auth e source store =
    end_job SyncJobStatus.failed (exception e)
      (record store { source = some (mark_auth_failed e source) })

-- The handlers of `validate_credentials`, and those of `list_changes`.
unfoldable pub on_invalid : Failure → Source → Store → Store
unfolding finalize_job
on_invalid (auth text) source store = end_auth (auth text) source store
on_invalid e source store = end_job SyncJobStatus.failed (exception e) store

unfoldable pub on_unlisted : Failure → Source → Store → Store
unfolding finalize_job
on_unlisted (auth text) source store = end_auth (auth text) source store
on_unlisted (rate_limit text) source store =
    end_job SyncJobStatus.queued (exception (rate_limit text)) store
on_unlisted e source store = end_job SyncJobStatus.failed (exception e) store

unfoldable pub final_status : ℕ → ℕ → SyncJobStatus
final_status total lost =
    if lost == 0
    then SyncJobStatus.completed
    else if ltb 0 (total - lost)
    then SyncJobStatus.partial
    else SyncJobStatus.failed

-- `_mark_source_last_sync`
abbrev pub last_error_after : ℕ → Dict Cause → Source → Option SourceError
last_error_after zero errors source = elim source.status [
  | SourceStatus.auth_failed ↦ source.last_error
  | _ ↦ none
]
last_error_after (suc n) errors source = some (SourceError.log errors)
