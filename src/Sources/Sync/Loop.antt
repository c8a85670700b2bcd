-- ===== src/Sources/Sync/Loop.antt =====
-- The loop of the sync engine over the documents that a connector lists, and which of them it loses.
use know_gate.Prelude.{
  ℕ, suc, ◌+◌, ◌≤◌, ◌≡◌, String, Bool, true, false, not, ◌&&◌, ◌||◌, List, [], ◌∷◌, if◌then◌else◌,
  length, arith, Bool-cases, inl, inr,
}
use know_gate.Sources.Base.{Outcome, returned, raised, SourceDoc, BaseSourceConnector}
use know_gate.Sources.Sync.{
  Services, Source, Progress, key_of, exceeds, sync_doc, process_doc, process_all, Stage, Cause,
  settle, after_fetch, after_upload, store_doc, publish, fail, mark_doc_deleted, too_large, size_of,
  exception,
}

abbrev pub is_raised : {A : Type 0} → Outcome A → Bool
is_raised (raised e) = true
is_raised (returned a) = false

-- The download or the upload raises.
abbrev pub stops : Services → Source → ℕ → String → Outcome (String × SourceDoc) → Bool
stops services source idx doc_id (raised e) = true
stops services source idx doc_id (returned (raw, current)) =
    is_raised (services.upload_doc idx (key_of source doc_id) raw)

-- A document that is not gone is lost if it is too large, or if its download or upload raises.
unfoldable pub is_lost : Services → BaseSourceConnector → Source → ℕ → SourceDoc → Bool
is_lost services connector source idx doc =
    not doc.is_deleted
    && (exceeds doc.size_bytes services.max_doc_size_bytes
        || stops services source idx doc.id (connector.fetch_doc idx doc.id))

unfoldable pub lost : Services → BaseSourceConnector → Source → ℕ → List SourceDoc → ℕ
lost services connector source idx [] = 0
lost services connector source idx (doc ∷ docs) =
    (if is_lost services connector source idx doc then 1 else 0)
    + lost services connector source (suc idx) docs

module _ (services : Services) (source : Source) (total idx : ℕ) (doc : SourceDoc) (p : Progress)
    (Q : Bool → Progress → Type 0)
    (when_lost : (stage : Stage) (cause : Cause) → Q true (fail stage idx total doc.id cause p))
    (when_stored : (raw : String) (current : SourceDoc)
      → Q false (
          publish Stage.fetch idx total (store_doc services source idx doc.id raw current p))) where
  by_upload :
      (raw : String) (current : SourceDoc) (o : Outcome (Unit {0}))
      → Q (is_raised o) (
          settle idx total doc.id p
            (after_upload o (store_doc services source idx doc.id raw current p)))
  by_upload raw current (raised e) = when_lost Stage.failed (exception e)
  by_upload raw current (returned _) = when_stored raw current

  by_fetch :
      (o : Outcome (String × SourceDoc))
      → Q
          (stops services source idx doc.id o)
          (settle idx total doc.id p (after_fetch services source idx doc.id o p))
  by_fetch (raised e) = when_lost Stage.failed (exception e)
  by_fetch (returned (raw, current)) =
      by_upload raw current (services.upload_doc idx (key_of source doc.id) raw)

  -- What a turn of the loop can come to.
  pub process_doc-ind :
      (connector : BaseSourceConnector)
      → Q false (
          publish Stage.delete idx total
            (record p { documents = mark_doc_deleted source.type doc.id p.documents }))
      → Q
          (is_lost services connector source idx doc)
          (process_doc services connector source total idx doc p)
  unfolding process_doc sync_doc is_lost
  process_doc-ind connector when_gone = elim (Bool-cases doc.is_deleted) [
    | inl gone ↦ rw gone when_gone
    | inr there ↦ elim (Bool-cases (exceeds doc.size_bytes services.max_doc_size_bytes)) [
      | inl large ↦ rw there (rw large (when_lost Stage.skip (too_large (size_of doc.size_bytes))))
      | inr small ↦ rw there (rw small (by_fetch (connector.fetch_doc idx doc.id)))
    ]
  ]

module _ (services : Services) (connector : BaseSourceConnector) (source : Source) where
  process_doc-failed :
      (total idx : ℕ) (doc : SourceDoc) (p : Progress)
      → (process_doc services connector source total idx doc p).failed
        ≡ p.failed + (if is_lost services connector source idx doc then 1 else 0)
  process_doc-failed total idx doc p =
      process_doc-ind services source total idx doc p
        (λ b q. q.failed ≡ p.failed + (if b then 1 else 0)) (λ _ _. omega arith)
        (λ _ _. omega arith) connector (omega arith)

  pub process_all-failed :
      (total idx : ℕ) (docs : List SourceDoc) (p : Progress)
      → (process_all services connector source total idx docs p).failed
        ≡ p.failed + lost services connector source idx docs
  unfolding process_all lost
  process_all-failed total idx [] p = omega arith
  process_all-failed total idx (doc ∷ docs) p = omega (
    arith,
    process_doc-failed total idx doc p,
    process_all-failed total (suc idx) docs (process_doc services connector source total idx doc p),
  )

  pub lost-le :
      (idx : ℕ) (docs : List SourceDoc) → lost services connector source idx docs ≤ length docs
  unfolding lost
  lost-le idx [] = omega arith
  lost-le idx (doc ∷ docs) = ground (arith, lost-le (suc idx) docs)
