-- ===== src/Pipeline/Indexer/Outcome.antt =====
-- How a run of `ingest_document` in backend/app/pipeline/indexer.py can end.
use know_gate.Prelude.{
  ℕ, ◌<◌, ◌≡◌, ◌⊎◌, inl, inr, refl, sym, ap, subst, String, false, ◌&&◌, Option, none, some, List,
  [], ◌∷◌, str_eq, eq_iff, ◌==◌, ltb, ltb→lt, if_cases, length, map, take, arith, All, ◌*◌,
}
use know_gate.Db.{Document, DocumentStatus}
use know_gate.Db.Table.{find?, find?-sound, find?-update_where}
use know_gate.Pipeline.Chunker.{Chunk, Section, chunk_by_sections}
use know_gate.Pipeline.Chunker.Numbering.{chunk_by_sections-IsNumbered}
use know_gate.Pipeline.VectorIndexer.{bulk_batch_size, bulk_rounds-take, upsert_chunks_bulk-upsert}
use know_gate.Pipeline.Indexer.{
  Services, Index, Ended, returned, raised, indexed, Parsed, sections, empty_document, parser_error,
  other_error, PointStruct, get_group_ids, set_status, is_document_active, is_some, or_octets,
  write_document, points_of, on_written, on_points, on_vectors, on_chunks, on_parsed, on_raw,
  on_key, on_document, ingest_document,
}
use know_gate.Pipeline.Indexer.Points.{
  GroupsOf, PointsOf, get_group_ids-GroupsOf, points_of-PointsOf,
}
use know_gate.Pipeline.Indexer.Rows.{HasRow, persist_chunks-HasRow}

module _ (sv : Services) where
  -- An exception, and what had been written before it.
  abbrev pub Broken : Index sv → Ended × Index sv → Type 0
  Broken t p = (name : String) × (p ≡ (raised name, t))

  -- The chunks of the file of a document and their vectors.
  pub record ChunksOf (doc : Document) (chunks : List Chunk) (vectors : List sv.Vector)
      : Type 0 where
    pub key : String
    pub raw : sv.Raw
    pub parsed : List Section
    pub key_lem : doc.object_key ≡ some key
    pub download_lem : sv.download_doc key ≡ some raw
    pub parse_lem : sv.parse_bytes raw (or_octets doc.mime_type) key ≡ sections parsed
    pub chunks_lem : chunk_by_sections sv.encoder sv.default_sizes parsed ≡ some chunks
    pub vectors_lem : sv.embed_batch (map (λ c. c.text) chunks) ≡ some vectors

  -- The points of a document that is shared with some groups.
  pub record Prepared (doc : Document) (pairs : List (String × String)) : Type 0 where
    pub groups : List String
    pub chunks : List Chunk
    pub vectors : List sv.Vector
    pub points : List (PointStruct sv.Vector)
    pub groups_lem : GroupsOf doc.id pairs groups
    pub chunks_lem : ChunksOf doc chunks vectors
    pub points_lem : PointsOf sv doc groups chunks vectors points

  -- An exception after some of the points but not all have been written.
  abbrev pub Halfway : Document → List (String × String) → Index sv → Ended × Index sv → Type 0
  Halfway doc pairs t p =
      (x : Prepared doc pairs) × (n : ℕ) × (n < length x.points)
      × Broken (record t { points = sv.qdrant.upsert (take n x.points) t.points }) p

  -- All points are written, all chunks have their rows, and the document is active.
  pub record Indexed (now : ℕ) (doc : Document) (pairs : List (String × String)) (t : Index sv)
      (p : Ended × Index sv) : Type 0 where
    pub prepared : Prepared doc pairs
    pub some_chunks : 0 < length prepared.chunks
    pub result :
        p.0
        ≡ returned (record {
          doc_id = doc.id;
          status = indexed;
          chunk_count = length prepared.chunks;
          error = none;
        })
    pub points_lem : p.1.points ≡ sv.qdrant.upsert prepared.points t.points
    pub rows_lem : All (HasRow sv doc.id p.1.chunks) prepared.chunks
    pub document_lem :
        find? (λ d. str_eq d.id doc.id) p.1.documents
        ≡ some (record doc {
          status = DocumentStatus.active;
          indexed_at = some now;
          error_message = none;
        })

  abbrev pub indexing : Document → Index sv → Index sv
  indexing doc t = write_document sv doc.id (set_status DocumentStatus.indexing) t

  module _ (now : ℕ) (doc : Document) (pairs : List (String × String)) (t : Index sv)
      (there : find? (λ d. str_eq d.id doc.id) t.documents ≡ some doc) where
    abbrev groups : List String
    groups = get_group_ids doc.id pairs

    abbrev at_work : Index sv
    at_work = indexing doc t

    abbrev Settles : Ended × Index sv → Type 0
    Settles p = Broken at_work p ⊎ (Halfway doc pairs at_work p ⊎ Indexed now doc pairs at_work p)

    prepare :
        (cs : List Chunk) (vs : List sv.Vector)
        → ChunksOf doc cs vs
        → length vs ≡ length cs
        → Prepared doc pairs
    prepare cs vs of_file same = record {
      groups = groups;
      chunks = cs;
      vectors = vs;
      points = points_of sv doc groups cs vs;
      groups_lem = get_group_ids-GroupsOf doc.id pairs;
      chunks_lem = of_file;
      points_lem = points_of-PointsOf sv doc groups cs vs same;
    }

    on_written-Indexed :
        (cs : List Chunk) (vs : List sv.Vector) (of_file : ChunksOf doc cs vs)
        → length vs ≡ length cs
        → 0 < length cs
        → Indexed now doc pairs at_work
            (on_written sv now doc cs at_work (points_of sv doc groups cs vs))
    unfolding prepare
    on_written-Indexed cs vs of_file same pos = record {
      prepared = prepare cs vs of_file same;
      some_chunks = pos;
      result = refl;
      points_lem =
          ap (λ r. r.1)
            (upsert_chunks_bulk-upsert sv.qdrant bulk_batch_size (points_of sv doc groups cs vs)
              t.points (omega arith));
      rows_lem = persist_chunks-HasRow sv doc.id sv.encoder 0 cs t.chunks (
          chunk_by_sections-IsNumbered sv.encoder sv.default_sizes of_file.parsed cs
            of_file.chunks_lem);
      document_lem =
          find?-update_where (λ d. str_eq d.id doc.id) _ _ _ (λ d. refl)
            (find?-update_where (λ d. str_eq d.id doc.id) (set_status DocumentStatus.indexing)
              t.documents doc (λ d. refl) there);
    }

    on_points-Settles :
        (cs : List Chunk) (vs : List sv.Vector) (of_file : ChunksOf doc cs vs) (o : Option ℕ)
        → length vs ≡ length cs
        → 0 < length cs
        → Settles (on_points sv now doc cs at_work (points_of sv doc groups cs vs) o)
    unfolding on_points prepare
    on_points-Settles cs vs of_file none same pos =
        inr (inr (on_written-Indexed cs vs of_file same pos))
    on_points-Settles cs vs of_file (some batch) same pos =
        let points = points_of sv doc groups cs vs in
        if_cases Settles (ltb (batch * bulk_batch_size) (length points))
          (λ fails. inr (
            inl (
              prepare cs vs of_file same,
              batch * bulk_batch_size,
              ltb→lt (batch * bulk_batch_size) (length points) fails,
              (
                "AttributeError",
                ap (λ s. (raised "AttributeError", record at_work { points = s }))
                    (bulk_rounds-take sv.qdrant batch bulk_batch_size points t.points),
              ),
            )))
          (λ _. inr (inr (on_written-Indexed cs vs of_file same pos)))

    on_vectors-Settles :
        (cs : List Chunk) (o : Option (List sv.Vector))
        → ((vs : List sv.Vector) → o ≡ some vs → ChunksOf doc cs vs)
        → 0 < length cs
        → Settles (on_vectors sv now doc groups cs at_work o)
    unfolding on_vectors
    on_vectors-Settles cs none of_file pos = inl ("AttributeError", refl)
    on_vectors-Settles cs (some vs) of_file pos =
        if_cases Settles (length vs == length cs)
          (λ e.
            on_points-Settles cs vs (of_file vs refl) sv.qdrant_fails_at (ground (arith, e)) pos)
          (λ _. inl ("AttributeError", refl))

    on_chunks-Settles :
        (o : Option (List Chunk))
        → ((cs : List Chunk) (vs : List sv.Vector)
            → o ≡ some cs
            → sv.embed_batch (map (λ c. c.text) cs) ≡ some vs
            → ChunksOf doc cs vs)
        → Settles (on_chunks sv now doc groups at_work o)
    unfolding on_chunks
    on_chunks-Settles none of_file = inl ("ValueError", refl)
    on_chunks-Settles (some []) of_file = inl ("AttributeError", refl)
    on_chunks-Settles (some (c ∷ cs)) of_file =
        on_vectors-Settles (c ∷ cs) _ (λ vs e. of_file (c ∷ cs) vs refl e) (omega arith)

    on_parsed-Settles :
        (key : String) (raw : sv.Raw) (parsed : Parsed)
        → doc.object_key ≡ some key
        → sv.download_doc key ≡ some raw
        → sv.parse_bytes raw (or_octets doc.mime_type) key ≡ parsed
        → Settles (on_parsed sv now doc groups at_work parsed)
    unfolding on_parsed
    on_parsed-Settles key raw (sections ss) k d h = on_chunks-Settles _ (λ cs vs c v. record {
      key = key;
      raw = raw;
      parsed = ss;
      key_lem = k;
      download_lem = d;
      parse_lem = h;
      chunks_lem = c;
      vectors_lem = v;
    })
    on_parsed-Settles key raw empty_document k d h = inl ("AttributeError", refl)
    on_parsed-Settles key raw parser_error k d h = inl ("AttributeError", refl)
    on_parsed-Settles key raw (other_error e) k d h = inl (e, refl)

    on_raw-Settles :
        (key : String) (o : Option sv.Raw)
        → doc.object_key ≡ some key
        → sv.download_doc key ≡ o
        → Settles (on_raw sv now doc key groups at_work o)
    unfolding on_raw
    on_raw-Settles key none k d = inl ("AttributeError", refl)
    on_raw-Settles key (some raw) k d = on_parsed-Settles key raw _ k d refl

    on_key-Settles :
        (o : Option String)
        → doc.object_key ≡ o
        → Broken t (on_key sv now doc pairs t o) ⊎ Settles (on_key sv now doc pairs t o)
    unfolding on_key
    on_key-Settles none k = inl ("AttributeError", refl)
    on_key-Settles (some key) k =
        if_cases (λ p. Broken t p ⊎ Settles p) (str_eq key "") (λ _. inl ("AttributeError", refl))
          (λ _. inr (on_raw-Settles key _ k refl))

  -- A run for a document that is there and is not indexed yet ends in one of four ways. It raises an
  -- exception with nothing written; or with the document left in the status `indexing`; or with some
  -- of the points written besides. Or it returns the number of the chunks of the document's file, and
  -- then each of them has its row in the table and its point in the collection, with the groups that
  -- the document is shared with, and the document is active. It never ends with the result `failed`.
  pub ingest_document-Indexed :
      (now : ℕ) (doc_id : String) (doc : Document) (document_groups : List (String × String))
      (t : Index sv)
      → find? (λ d. str_eq d.id doc_id) t.documents ≡ some doc
      → (is_document_active doc.status && is_some doc.indexed_at) ≡ false
      → let p = ingest_document sv now doc_id document_groups t in
        Broken t p
        ⊎ (Broken (indexing doc t) p
            ⊎ (Halfway doc document_groups (indexing doc t) p
                ⊎ Indexed now doc document_groups (indexing doc t) p))
  unfolding ingest_document on_document
  ingest_document-Indexed now doc_id doc groups t e fresh =
      let same : doc.id ≡ doc_id =
        (eq_iff doc.id doc_id).0 (find?-sound (λ d. str_eq d.id doc_id) t.documents doc e) in
      let there : find? (λ d. str_eq d.id doc.id) t.documents ≡ some doc =
        subst (λ id. find? (λ d. str_eq d.id id) t.documents ≡ some doc) (sym same) e in
      rw (e, fresh) (on_key-Settles now doc groups t there doc.object_key refl)
