-- ===== src/Tasks/Reembed.antt =====
-- `reembed_all_task` and `reembed_one_task` of backend/app/tasks/ingest.py over the table of chunks. The
-- embedder, uuid5 and the collection of Qdrant are arguments. The name of the model and the update of
-- the column `embedding_model` are left out.
use mathlib.Core.Path.{ap₂}
use know_gate.Prelude.{
  ℕ, zero, suc, ◌+◌, ◌<◌, ◌≤◌, ◌≡◌, refl, sym, ap, ◌∙◌, String, Bool, true, false, Option, none,
  some, List, [], ◌∷◌, map, map-append, take, drop, length, length-take, arith, str_eq,
}
use know_gate.Db.Table.{find?}
use know_gate.Pipeline.Chunker.{Text}
use know_gate.Pipeline.Indexer.{ChunkRow}
use know_gate.Pipeline.VectorIndexer.{
  Collection, upsert_chunks_bulk, upsert_chunks_bulk-upsert, bulk_batch_size, length-drop,
  take-drop,
}

abbrev pub reembed_batch_size : ℕ
reembed_batch_size = 256

-- A point with the payload of the task.
pub record ReembedPoint (V : Type 0) : Type 0 where
  pub id : String
  pub vector : V
  pub chunk_id : String
  pub doc_id : String
  pub group_ids : List String
  pub language : Option String
  pub status : String
  pub chunk_index : ℕ
  pub section_title : Option String
  pub indexed_at : Option String
  pub source : Option String
  pub source_id : Option String

module _ {V : Type 0} (make_point_id : String → ℕ → String) where
  abbrev pub point_of : ChunkRow → V → ReembedPoint V
  point_of row vector = record {
    id = make_point_id row.document_id row.chunk_index;
    vector = vector;
    chunk_id = row.id;
    doc_id = row.document_id;
    group_ids = [];
    language = none;
    status = "active";
    chunk_index = row.chunk_index;
    section_title = none;
    indexed_at = none;
    source = none;
    source_id = none;
  }

  abbrev pub add_point :
      ReembedPoint V → Option (List (ReembedPoint V)) → Option (List (ReembedPoint V))
  add_point p none = none
  add_point p (some ps) = some (p ∷ ps)

  -- `vectors[i]` of each chunk of the batch; a vector that is missing is an error.
  unfoldable pub reembed_points : List ChunkRow → List V → Option (List (ReembedPoint V))
  reembed_points [] vectors = some []
  reembed_points (row ∷ rows) [] = none
  reembed_points (row ∷ rows) (v ∷ vs) = add_point (point_of row v) (reembed_points rows vs)

  unfoldable pub batch_points : List ChunkRow → Option (List V) → Option (List (ReembedPoint V))
  unfolding reembed_points
  batch_points batch none = none
  batch_points batch (some vectors) = reembed_points batch vectors

  module _ (embed_batch : List Text → Option (List V)) (qdrant : Collection (ReembedPoint V)) where
    open qdrant use {Store, upsert}

    abbrev pub add_written : ℕ → Option ℕ → Option ℕ
    add_written written none = none
    add_written written (some total) = some (written + total)

    -- The points of one batch, and what follows it.
    unfoldable pub on_points :
        Option (List (ReembedPoint V)) → Store → (Store → Option ℕ × Store) → Option ℕ × Store
    on_points none s rest = (none, s)
    on_points (some points) s rest =
        let written = upsert_chunks_bulk qdrant bulk_batch_size points s in
        let later = rest written.1 in (add_written written.0 later.0, later.1)

    -- The loop over `range(0, total, REEMBED_BATCH_SIZE)`, with at most as many rounds as chunks. An
    -- error of the embedder ends it, `none`, after the batches that are written.
    unfoldable pub reembed_rounds : ℕ → ℕ → List ChunkRow → Store → Option ℕ × Store
    reembed_rounds zero batch_size rows s = (some 0, s)
    reembed_rounds (suc rounds) batch_size [] s = (some 0, s)
    reembed_rounds (suc rounds) batch_size (row ∷ rows) s =
        on_points
          (batch_points (take batch_size (row ∷ rows))
            (embed_batch (map (λ r. r.chunk_text) (take batch_size (row ∷ rows)))))
          s (λ s'. reembed_rounds rounds batch_size (drop batch_size (row ∷ rows)) s')

    -- `_run` of the task: the chunks that are written.
    unfoldable pub reembed_all : List ChunkRow → Store → Option ℕ × Store
    unfolding reembed_rounds on_points batch_points
    reembed_all rows s = reembed_rounds (length rows) reembed_batch_size rows s

    -- `reembed_one_task`: whether the chunk is found, and the store.
    unfoldable pub reembed_chunk : Option ChunkRow → Store → Option Bool × Store
    reembed_chunk none s = (some false, s)
    reembed_chunk (some row) s = of_vectors (embed_batch (row.chunk_text ∷ []))
      where
        of_vectors : Option (List V) → Option Bool × Store
        of_vectors none = (none, s)
        of_vectors (some []) = (none, s)
        of_vectors (some (v ∷ vs)) =
            (some true, (upsert_chunks_bulk qdrant bulk_batch_size (point_of row v ∷ []) s).1)

    abbrev pub reembed_one : String → List ChunkRow → Store → Option Bool × Store
    reembed_one chunk_id rows s = reembed_chunk (find? (λ r. str_eq r.id chunk_id) rows) s

    module _ (vector_of : Text → V)
        (embeds : (texts : List Text) → embed_batch texts ≡ some (map vector_of texts)) where
      -- The point that a chunk gets.
      abbrev pub point_for : ChunkRow → ReembedPoint V
      point_for row = point_of row (vector_of row.chunk_text)

      reembed_points-map :
          (rows : List ChunkRow)
          → reembed_points rows (map vector_of (map (λ r. r.chunk_text) rows))
            ≡ some (map point_for rows)
      unfolding reembed_points
      reembed_points-map [] = refl
      reembed_points-map (row ∷ rows) = ap (add_point (point_for row)) (reembed_points-map rows)

      length-points : (rows : List ChunkRow) → length (map point_for rows) ≡ length rows
      length-points [] = refl
      length-points (row ∷ rows) = ap suc (length-points rows)

      on_points-upsert :
          (batch : List ChunkRow) (s : Store) (rest : Store → Option ℕ × Store)
          → on_points (batch_points batch (embed_batch (map (λ r. r.chunk_text) batch))) s rest ≡ (
            add_written (length batch) (rest (upsert (map point_for batch) s)).0,
            (rest (upsert (map point_for batch) s)).1,
          )
      unfolding on_points batch_points
      on_points-upsert batch s rest =
          rw
            (
              embeds (map (λ r. r.chunk_text) batch),
              reembed_points-map batch,
              upsert_chunks_bulk-upsert qdrant bulk_batch_size (map point_for batch) s
                  (omega arith),
              length-points batch,
            )
            refl

      reembed_rounds-upsert :
          (rounds batch_size : ℕ) (rows : List ChunkRow) (s : Store)
          → 0 < batch_size
          → length rows ≤ rounds
          → reembed_rounds rounds batch_size rows s
            ≡ (some (length rows), upsert (map point_for rows) s)
      unfolding reembed_rounds
      reembed_rounds-upsert zero b [] s pos enough =
          ap (λ t. (some 0, t)) (sym (qdrant.upsert-nil s))
      reembed_rounds-upsert zero b (row ∷ rows) s pos enough = absurd (omega (arith, enough))
      reembed_rounds-upsert (suc rounds) b [] s pos enough =
          ap (λ t. (some 0, t)) (sym (qdrant.upsert-nil s))
      reembed_rounds-upsert (suc rounds) b (row ∷ rows) s pos enough =
          let all : List ChunkRow = row ∷ rows in
          let later =
            reembed_rounds-upsert rounds b (drop b all) (upsert (map point_for (take b all)) s) pos
              (omega (arith, length-drop b all, enough, pos)) in
          on_points-upsert (take b all) s (λ s'. reembed_rounds rounds b (drop b all) s')
          ∙ (ap (λ (r : Option ℕ × Store). (add_written (length (take b all)) r.0, r.1)) later
              ∙ ap₂ (λ n t. (some n, t)) (omega (arith, length-drop b all, length-take b all))
                  (sym (
                      qdrant.upsert-append (map point_for (take b all)) (map point_for (drop b all))
                        s)
                    ∙ ap (λ ps. upsert ps s)
                        (sym (map-append point_for (take b all) (drop b all))
                          ∙ ap (λ rs. map point_for rs) (take-drop b all))))

      -- What a point says of its chunk.
      pub record IsPointOf (row : ChunkRow) (p : ReembedPoint V) : Type 0 where
        pub id_lem : p.id ≡ make_point_id row.document_id row.chunk_index
        pub vector_lem : p.vector ≡ vector_of row.chunk_text
        pub chunk_lem : (p.chunk_id ≡ row.id) × (p.chunk_index ≡ row.chunk_index)
        pub document_lem : p.doc_id ≡ row.document_id
        pub no_groups : p.group_ids ≡ []
        pub no_source : (p.source ≡ none) × (p.source_id ≡ none)

      -- One point for each chunk, in order.
      abbrev pub PointsOf : List ChunkRow → List (ReembedPoint V) → Type 0
      PointsOf [] [] = Unit
      PointsOf [] (p ∷ ps) = ⊥
      PointsOf (row ∷ rows) [] = ⊥
      PointsOf (row ∷ rows) (p ∷ ps) = IsPointOf row p × PointsOf rows ps

      points_for-PointsOf : (rows : List ChunkRow) → PointsOf rows (map point_for rows)
      points_for-PointsOf [] = tt
      points_for-PointsOf (row ∷ rows) = (
        record {
          id_lem = refl;
          vector_lem = refl;
          chunk_lem = (refl, refl);
          document_lem = refl;
          no_groups = refl;
          no_source = (refl, refl);
        },
        points_for-PointsOf rows,
      )

      -- If the embedder gives a vector for each text, by the text alone, then the task ends, returns the
      -- number of the chunks, and has written one point for each chunk, in order: it has the id that
      -- belongs to the document and the index of the chunk, the vector of its text and the ids of the
      -- chunk and the document, but no group and no source.
      pub reembed_all-upsert :
          (rows : List ChunkRow) (s : Store)
          → (points : List (ReembedPoint V)) × PointsOf rows points
            × (reembed_all rows s ≡ (some (length rows), upsert points s))
      unfolding reembed_all
      reembed_all-upsert rows s = (
        map point_for rows,
        points_for-PointsOf rows,
        reembed_rounds-upsert (length rows) reembed_batch_size rows s (omega arith) (omega arith),
      )
