-- ===== src/Tests/Indexing.antt =====
-- Runs of the indexer of backend/app/pipeline/indexer.py and of backend/app/vector/indexer.py.
use know_gate.Prelude.{
  none, ℕ, ◌≡◌, ◌⊎◌, refl, sym, List, [], ◌∷◌, ◌++◌, some, map, arith, length, str_eq, append-nil,
  append_assoc,
}
use know_gate.Db.{Document, DocumentStatus}
use know_gate.Db.Table.{find?}
use know_gate.Pipeline.VectorIndexer.{Collection, upsert_chunks_bulk, upsert_chunks_bulk-upsert}
use know_gate.Pipeline.Indexer.{Services, Index, sections, ingest_document}
use know_gate.Pipeline.Indexer.Outcome.{Halfway, Broken, Indexed, indexing, ingest_document-Indexed}
use know_gate.Tests.Api.{handbook}
use know_gate.Tests.Pipeline.{letters, sizes, body}

-- A collection that keeps all that is written.
abbrev written : {P : Type 0} → Collection P
written {P} = record {
  Store = List P;
  upsert = λ ps s. s ++ ps;
  upsert-nil = λ s. append-nil s;
  upsert-append = λ ps qs s. sym (append_assoc s ps qs);
}

upsert_chunks_bulk-upsert_example :
    upsert_chunks_bulk (written {P = ℕ}) 2 (1 ∷ 2 ∷ 3 ∷ []) [] ≡ (3, 1 ∷ 2 ∷ 3 ∷ [])
upsert_chunks_bulk-upsert_example =
    upsert_chunks_bulk-upsert (written {P = ℕ}) 2 (1 ∷ 2 ∷ 3 ∷ []) [] (omega arith)

abbrev services : Services
services = record {
  Vector = ℕ;
  Raw = ℕ;
  qdrant = written;
  qdrant_fails_at = none;
  download_doc = λ key. some 7;
  parse_bytes = λ raw mime_type filename. sections (body ∷ []);
  encoder = letters;
  default_sizes = sizes;
  detect_language = λ text. "en";
  embed_batch = λ texts. some (map (λ t. length t) texts);
  make_point_id = λ doc_id i. doc_id;
  new_row_id = λ i. "row";
}

abbrev found_new : Document
found_new = record handbook { status = DocumentStatus.discovered; object_key = some "docs/f1" }

abbrev index : Index services
index = record { documents = found_new ∷ []; chunks = []; points = [] }

new_found : find? (λ d. str_eq d.id "d1") (found_new ∷ []) ≡ some found_new
unfolding find?
new_found = refl

ingest_document-Indexed_example :
    let p = ingest_document services 9 "d1" (("d1", "g1") ∷ []) index in
    Broken services index p
    ⊎ (Broken services (indexing services found_new index) p
        ⊎ (Halfway services found_new (("d1", "g1") ∷ []) (indexing services found_new index) p
            ⊎ Indexed services 9 found_new
                (("d1", "g1") ∷ [])
                (indexing services found_new index)
                p))
ingest_document-Indexed_example =
    ingest_document-Indexed services 9 "d1" found_new (("d1", "g1") ∷ []) index new_found refl
