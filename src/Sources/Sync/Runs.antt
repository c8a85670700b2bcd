-- ===== src/Sources/Sync/Runs.antt =====
-- How a run of the sync engine ends: the counts of the job, its status and the cursor.
use know_gate.Prelude.{
  ℕ, ◌+◌, ◌-◌, ◌≤◌, ◌<◌, ◌≡◌, ◌↔◌, refl, ap, sym, subst, ◌∙◌, String, Bool, true, false, Option,
  none, some, List, ◌==◌, ltb, if◌then◌else◌, length, arith,
}
use know_gate.Sources.Base.{Outcome, returned, SourceDoc, BaseSourceConnector}
use know_gate.Sources.Sync.{
  Services, Source, SyncJobStatus, Progress, Store, final_status, finalize_job, conclude, started,
  after_listing, after_validation, run_source,
}
use know_gate.Sources.Sync.Loop.{lost, process_all-failed, lost-le}

-- The cursor that the next run starts from.
abbrev pub cursor_of : Option Source → Option String
cursor_of none = none
cursor_of (some source) = source.sync_cursor

completed_only :
    (a b : Bool)
    → (if a
          then SyncJobStatus.completed
          else if b
          then SyncJobStatus.partial
          else SyncJobStatus.failed)
        ≡ SyncJobStatus.completed
      ↔ a ≡ true
completed_only true b = ((λ _. refl), (λ _. refl))
completed_only false true = ((λ h. cc), (λ h. cc))
completed_only false false = ((λ h. cc), (λ h. cc))

failed_only :
    (a b : Bool)
    → (if a
          then SyncJobStatus.completed
          else if b
          then SyncJobStatus.partial
          else SyncJobStatus.failed)
        ≡ SyncJobStatus.failed
      ↔ (a ≡ false) × (b ≡ false)
failed_only true b = ((λ h. cc), (λ h. cc))
failed_only false true = ((λ h. cc), (λ h. cc))
failed_only false false = ((λ _. (refl, refl)), (λ _. refl))

final_status-completed : (total n : ℕ) → final_status total n ≡ SyncJobStatus.completed ↔ n ≡ 0
unfolding final_status
final_status-completed total n = (
  (λ h. ground (arith, (completed_only (n == 0) (ltb 0 (total - n))).0 h)),
  (λ h. (completed_only (n == 0) (ltb 0 (total - n))).1 (ground arith)),
)

final_status-failed :
    (total n : ℕ) → n ≤ total → final_status total n ≡ SyncJobStatus.failed ↔ (0 < n) × (n ≡ total)
unfolding final_status
final_status-failed total n le = (
  (λ h. ground (arith, (failed_only (n == 0) (ltb 0 (total - n))).0 h)),
  (λ h. (failed_only (n == 0) (ltb 0 (total - n))).1 (ground arith)),
)

-- A job over `total` documents of which `n` failed, for a source that goes on from the cursor.
pub record Counts (total n : ℕ) (next_cursor : Option String) (store : Store) : Type 0 where
  pub total_docs : store.job.total_docs ≡ total
  pub failed_docs : store.job.failed_docs ≡ n
  pub indexed_docs : store.job.indexed_docs + n ≡ total
  pub completed_iff : store.job.status ≡ SyncJobStatus.completed ↔ n ≡ 0
  pub failed_iff : store.job.status ≡ SyncJobStatus.failed ↔ (0 < n) × (n ≡ total)
  pub cursor : cursor_of store.source ≡ next_cursor

conclude-Counts :
    (total n : ℕ) (next_cursor : Option String) (source : Source) (p : Progress) (store : Store)
    → p.failed ≡ n
    → n ≤ total
    → Counts total n next_cursor (conclude total next_cursor source p store)
unfolding conclude finalize_job
conclude-Counts total n next_cursor source p store e le = record {
  total_docs = refl;
  failed_docs = e;
  indexed_docs = omega (arith, e, le);
  completed_iff = rw e (final_status-completed total n);
  failed_iff = rw e (final_status-failed total n le);
  cursor = refl;
}

module _ (services : Services) (connector : BaseSourceConnector) (source : Source) (store : Store)
    (valid : connector.validate_credentials ≡ returned tt) where
  listing :
      (o : Outcome (List SourceDoc × Option String))
      → connector.list_changes source.sync_cursor ≡ o
      → run_source services connector source store ≡ after_listing services connector source store o
  unfolding run_source
  listing o e =
      ap (after_validation services connector source store) valid
      ∙ ap (after_listing services connector source store) e

  -- If the credentials are valid and the changes are listed, the job ends with as many failed
  -- documents as are too large or whose download or upload raises, and counts all others as indexed;
  -- it is COMPLETED exactly if none failed and FAILED exactly if all of at least one did. The cursor
  -- moves to the next one whatever failed.
  pub run_source-Counts :
      (docs : List SourceDoc) (next_cursor : Option String)
      → connector.list_changes source.sync_cursor ≡ returned (docs, next_cursor)
      → Counts
          (length docs)
          (lost services connector source 1 docs)
          next_cursor
          (run_source services connector source store)
  run_source-Counts docs next_cursor listed =
      subst (Counts (length docs) (lost services connector source 1 docs) next_cursor)
        (sym (listing (returned (docs, next_cursor)) listed))
        (conclude-Counts (length docs) (lost services connector source 1 docs) next_cursor source _
          store
          (omega (
            arith,
            process_all-failed services connector source (length docs) 1 docs
                (started (length docs) store),
          ))
          (lost-le services connector source 1 docs))
