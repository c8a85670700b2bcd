-- ===== src/Pipeline/Indexer.antt =====
-- `ingest_document` of backend/app/pipeline/indexer.py: the steps from a stored file to the chunks in
-- the table and the points in Qdrant. The storage, the parser, the detection of the language and the
-- embedder are the fields of `Services`; uuid5 gives the id of a point, and the ids of new rows are
-- drawn.
pub mod Points
pub mod Rows
pub mod Outcome
use know_gate.Prelude.{
  ℕ, suc, ◌≡◌, ◌*◌, ltb, String, Bool, true, false, ◌&&◌, Option, none, some, List, [], ◌∷◌, ◌++◌,
  map, str_eq, ◌==◌, if◌then◌else◌, any, length,
}
use know_gate.Db.{Document, DocumentStatus}
use know_gate.Db.Table.{find?, update_where}
use know_gate.Pipeline.Chunker.{Text, Encoder, Section, Sizes, Chunk, chunk_by_sections}
use know_gate.Pipeline.VectorIndexer.{Collection, upsert_chunks_bulk, bulk_rounds, bulk_batch_size}

-- A row of the table `chunks`.
pub record ChunkRow : Type 0 where
  pub id : String
  pub document_id : String
  pub section_title : String
  pub chunk_text : Text
  pub token_count : ℕ
  pub page_number : Option ℕ
  pub language : String
  pub chunk_index : ℕ
  pub qdrant_point_id : String

-- A point with its payload, whose `chunk_id` is None and whose status is active.
pub record PointStruct (V : Type 0) : Type 0 where
  pub id : String
  pub vector : V
  pub doc_id : String
  pub group_ids : List String
  pub language : String
  pub chunk_index : ℕ
  pub section_title : String
  pub source : String
  pub source_id : String

pub data IngestStatus : Type 0 where
  indexed failed skipped : IngestStatus

pub record IngestResult : Type 0 where
  pub doc_id : String
  pub status : IngestStatus
  pub chunk_count : ℕ
  pub error : Option String

abbrev pub skipped_result : String → String → IngestResult
skipped_result doc_id e = record {
  doc_id = doc_id;
  status = skipped;
  chunk_count = 0;
  error = some e;
}

-- How a run ends: with a result, or with an exception of the named type.
pub data Ended : Type 0 where
  returned : IngestResult → Ended
  raised : String → Ended

pub data Parsed : Type 0 where
  sections : List Section → Parsed
  empty_document parser_error : Parsed
  other_error : String → Parsed

pub record Services : Type 1 where
  pub Vector : Type 0
  pub Raw : Type 0
  pub qdrant : Collection (PointStruct Vector)
  -- The number of the batch that Qdrant refuses, if it refuses one.
  pub qdrant_fails_at : Option ℕ
  pub download_doc : String → Option Raw
  pub parse_bytes : Raw → String → String → Parsed
  pub encoder : Encoder
  pub default_sizes : Sizes
  pub detect_language : Text → String
  pub embed_batch : List Text → Option (List Vector)
  pub make_point_id : String → ℕ → String
  pub new_row_id : ℕ → String

-- `_get_group_ids`
unfoldable pub get_group_ids : String → List (String × String) → List String
get_group_ids doc_id [] = []
get_group_ids doc_id ((d, g) ∷ pairs) =
    let rest = get_group_ids doc_id pairs in if str_eq d doc_id then g ∷ rest else rest

abbrev pub set_status : DocumentStatus → Document → Document
set_status status d = record d { status = status }

abbrev pub is_some {ℓ} : {A : Type ℓ} → Option A → Bool
is_some none = false
is_some (some a) = true

abbrev pub is_document_active : DocumentStatus → Bool
is_document_active DocumentStatus.active = true
is_document_active _ = false

abbrev pub or_octets : Option String → String
or_octets none = "application/octet-stream"
or_octets (some mime_type) = if str_eq mime_type "" then "application/octet-stream" else mime_type

module _ (sv : Services) where
  -- What a run changes: two tables and the collection.
  pub record Index : Type 0 where
    pub documents : List Document
    pub chunks : List ChunkRow
    pub points : sv.qdrant.Store

  -- `_mark_doc_failed` names `DocumentStatus.FAILED`, which the enumeration does not have: an
  -- AttributeError, before anything is written.
  abbrev pub mark_doc_failed : Index → Ended × Index
  mark_doc_failed t = (raised "AttributeError", t)

  abbrev pub write_document : String → (Document → Document) → Index → Index
  write_document doc_id f t = record t {
    documents = update_where (λ d. str_eq d.id doc_id) f t.documents;
  }

  -- `_mark_doc_active`, without the entries of `extra`
  abbrev pub mark_doc_active : ℕ → Document → Document
  mark_doc_active now d = record d {
    status = DocumentStatus.active;
    indexed_at = some now;
    error_message = none;
  }

  unfoldable pub points_of :
      Document → List String → List Chunk → List sv.Vector → List (PointStruct sv.Vector)
  points_of doc group_ids [] vectors = []
  points_of doc group_ids (c ∷ cs) [] = []
  points_of doc group_ids (c ∷ cs) (v ∷ vs) =
      record {
        id = sv.make_point_id doc.id c.chunk_index;
        vector = v;
        doc_id = doc.id;
        group_ids = group_ids;
        language = sv.detect_language c.text;
        chunk_index = c.chunk_index;
        section_title = c.section_title;
        source = doc.source;
        source_id = doc.source_id;
      }
      ∷ points_of doc group_ids cs vs

  abbrev pub row_of : String → String → Chunk → ChunkRow
  row_of doc_id id c = record {
    id = id;
    document_id = doc_id;
    section_title = c.section_title;
    chunk_text = c.text;
    token_count = c.token_count;
    page_number = c.page_number;
    language = sv.detect_language c.text;
    chunk_index = c.chunk_index;
    qdrant_point_id = sv.make_point_id doc_id c.chunk_index;
  }

  abbrev pub is_chunk_row : String → ℕ → ChunkRow → Bool
  is_chunk_row doc_id chunk_index r = str_eq r.document_id doc_id && r.chunk_index == chunk_index

  -- The statement of one chunk, on the conflict of `(document_id, chunk_index)`.
  unfoldable pub upsert_row : String → Chunk → List ChunkRow → List ChunkRow
  upsert_row doc_id c rows =
      if any (is_chunk_row doc_id c.chunk_index) rows
      then update_where (is_chunk_row doc_id c.chunk_index) (λ r. row_of doc_id r.id c) rows
      else rows ++ row_of doc_id (sv.new_row_id c.chunk_index) c ∷ []

  unfoldable pub persist_chunks : String → List Chunk → List ChunkRow → List ChunkRow
  unfolding upsert_row
  persist_chunks doc_id [] rows = rows
  persist_chunks doc_id (c ∷ cs) rows = persist_chunks doc_id cs (upsert_row doc_id c rows)

  -- All points are written.
  abbrev pub on_written :
      ℕ → Document → List Chunk → Index → List (PointStruct sv.Vector) → Ended × Index
  on_written now doc chunks t points = (
    returned
        (record { doc_id = doc.id; status = indexed; chunk_count = length chunks; error = none }),
    write_document doc.id (mark_doc_active now) (record t {
      points = (upsert_chunks_bulk sv.qdrant bulk_batch_size points t.points).1;
      chunks = persist_chunks doc.id chunks t.chunks;
    }),
  )

  -- The call of `upsert_chunks_bulk`: where it raises, the batches before are written.
  unfoldable pub on_points :
      ℕ → Document → List Chunk → Index → List (PointStruct sv.Vector) → Option ℕ → Ended × Index
  unfolding persist_chunks upsert_chunks_bulk
  on_points now doc chunks t points none = on_written now doc chunks t points
  on_points now doc chunks t points (some batch) =
      if ltb (batch * bulk_batch_size) (length points)
      then mark_doc_failed
          (record t { points = (bulk_rounds sv.qdrant batch bulk_batch_size points t.points).1 })
      else on_written now doc chunks t points

  -- The steps from the vectors on.
  unfoldable pub on_vectors :
      ℕ → Document → List String → List Chunk → Index → Option (List sv.Vector) → Ended × Index
  unfolding points_of on_points
  on_vectors now doc group_ids chunks t none = mark_doc_failed t
  on_vectors now doc group_ids chunks t (some vectors) =
      if length vectors == length chunks
      then on_points now doc chunks t (points_of doc group_ids chunks vectors) sv.qdrant_fails_at
      else mark_doc_failed t

  unfoldable pub on_chunks :
      ℕ → Document → List String → Index → Option (List Chunk) → Ended × Index
  unfolding on_vectors
  on_chunks now doc group_ids t none = (raised "ValueError", t)
  on_chunks now doc group_ids t (some []) = mark_doc_failed t
  on_chunks now doc group_ids t (some (c ∷ cs)) =
      on_vectors now doc group_ids (c ∷ cs) t (sv.embed_batch (map (λ c. c.text) (c ∷ cs)))

  unfoldable pub on_parsed : ℕ → Document → List String → Index → Parsed → Ended × Index
  unfolding on_chunks
  on_parsed now doc group_ids t (sections ss) =
      on_chunks now doc group_ids t (chunk_by_sections sv.encoder sv.default_sizes ss)
  on_parsed now doc group_ids t empty_document = mark_doc_failed t
  on_parsed now doc group_ids t parser_error = mark_doc_failed t
  on_parsed now doc group_ids t (other_error e) = (raised e, t)

  unfoldable pub on_raw :
      ℕ → Document → String → List String → Index → Option sv.Raw → Ended × Index
  unfolding on_parsed
  on_raw now doc key group_ids t none = mark_doc_failed t
  on_raw now doc key group_ids t (some raw) =
      on_parsed now doc group_ids t (sv.parse_bytes raw (or_octets doc.mime_type) key)

  unfoldable pub on_key :
      ℕ → Document → List (String × String) → Index → Option String → Ended × Index
  unfolding on_raw get_group_ids
  on_key now doc document_groups t none = mark_doc_failed t
  on_key now doc document_groups t (some key) =
      if str_eq key ""
      then mark_doc_failed t
      else on_raw now doc key (get_group_ids doc.id document_groups)
          (write_document doc.id (set_status DocumentStatus.indexing) t) (sv.download_doc key)

  unfoldable pub on_document :
      ℕ → String → List (String × String) → Index → Option Document → Ended × Index
  unfolding on_key
  on_document now doc_id document_groups t none =
      (returned (skipped_result doc_id "document not found"), t)
  on_document now doc_id document_groups t (some doc) =
      if is_document_active doc.status && is_some doc.indexed_at
      then (returned (skipped_result doc_id "already active"), t)
      else on_key now doc document_groups t doc.object_key

  unfoldable pub ingest_document : ℕ → String → List (String × String) → Index → Ended × Index
  unfolding on_document
  ingest_document now doc_id document_groups t =
      on_document now doc_id document_groups t (find? (λ d. str_eq d.id doc_id) t.documents)
