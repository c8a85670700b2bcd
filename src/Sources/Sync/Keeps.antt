-- ===== src/Sources/Sync/Keeps.antt =====
-- An induction over a run of the sync engine, for what depends on the documents and the objects.
use know_gate.Prelude.{ℕ, suc, String, Option, none, some, List, [], ◌∷◌, ◌++◌, length}
use know_gate.Db.{Document}
use know_gate.Sources.Base.{
  auth, rate_limit, other, Outcome, returned, raised, SourceDoc, BaseSourceConnector,
}
use know_gate.Sources.Sync.{
  Services, Source, Progress, Store, Providers, upsert_rows, mark_doc_deleted, process_doc,
  process_all, conclude, started, run_source, run_sync, on_invalid, on_unlisted, build_connector,
  after_listing, after_validation, after_build, after_load, key_of,
}
use know_gate.Sources.Sync.Loop.{process_doc-ind}

module _ (Q : List Document → List (String × String) → Type 0)
    (when_gone : (source_type doc_id : String) (documents : List Document)
        (objects : List (String × String))
      → Q documents objects
      → Q (mark_doc_deleted source_type doc_id documents) objects)
    (when_stored : (row_id doc_id raw : String) (source : Source) (doc : SourceDoc)
        (documents : List Document) (objects : List (String × String))
      → Q documents objects
      → Q
          (upsert_rows row_id source.type doc (key_of source doc_id) documents)
          (objects ++ (key_of source doc_id, raw) ∷ [])) where
  module _ (services : Services) (connector : BaseSourceConnector) (source : Source) where
    process_all-keeps :
        (total idx : ℕ) (docs : List SourceDoc) (p : Progress)
        → Q p.documents p.objects
        → Q
            (process_all services connector source total idx docs p).documents
            (process_all services connector source total idx docs p).objects
    unfolding process_all
    process_all-keeps total idx [] p h = h
    process_all-keeps total idx (doc ∷ docs) p h =
        process_all-keeps total (suc idx) docs
          (process_doc services connector source total idx doc p)
          (process_doc-ind services source total idx doc p (λ _ q. Q q.documents q.objects)
            (λ _ _. h)
            (λ raw current.
              when_stored (services.new_id idx) doc.id raw source current p.documents p.objects h)
            connector (when_gone source.type doc.id p.documents p.objects h))

    listed_case :
        (store : Store) (o : Outcome (List SourceDoc × Option String))
        → Q store.documents store.objects
        → Q
            (after_listing services connector source store o).documents
            (after_listing services connector source store o).objects
    unfolding on_unlisted conclude
    listed_case store (raised (auth t)) h = h
    listed_case store (raised (rate_limit t)) h = h
    listed_case store (raised (other t)) h = h
    listed_case store (returned (docs, next_cursor)) h =
        process_all-keeps (length docs) 1 docs (started (length docs) store) h

    validated_case :
        (store : Store) (o : Outcome (Unit {0}))
        → Q store.documents store.objects
        → Q
            (after_validation services connector source store o).documents
            (after_validation services connector source store o).objects
    unfolding on_invalid
    validated_case store (raised (auth t)) h = h
    validated_case store (raised (rate_limit t)) h = h
    validated_case store (raised (other t)) h = h
    validated_case store (returned _) h =
        listed_case store (connector.list_changes source.sync_cursor) h

    run_source-keeps :
        (store : Store)
        → Q store.documents store.objects
        → Q
            (run_source services connector source store).documents
            (run_source services connector source store).objects
    unfolding run_source
    run_source-keeps store h = validated_case store connector.validate_credentials h

  -- What the deletions and the uploads of a run keep, the run keeps.
  pub run_sync-keeps :
      (services : Services) (providers : Providers) (store : Store)
      → Q store.documents store.objects
      → Q (run_sync services providers store).documents (run_sync services providers store).objects
  unfolding run_sync
  run_sync-keeps services providers store h = loaded store.source
    where
      built :
          (source : Source) (o : Outcome BaseSourceConnector)
          → Q
              (after_build services store source o).documents
              (after_build services store source o).objects
      built source (raised e) = h
      built source (returned connector) = run_source-keeps services connector source store h

      loaded :
          (o : Option Source)
          → Q
              (after_load services providers store o).documents
              (after_load services providers store o).objects
      loaded none = h
      loaded (some source) = built source (build_connector providers source)
