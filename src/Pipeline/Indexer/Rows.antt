-- ===== src/Pipeline/Indexer/Rows.antt =====
-- The rows that `_persist_chunks` of backend/app/pipeline/indexer.py leaves.
use know_gate.Prelude.{
  ℕ, suc, ◌<◌, ◌≡◌, refl, ◌∙◌, Bool, Bool-cases, inl, inr, String, true, false, ◌&&◌, some, List,
  [], ◌∷◌, ◌++◌, str_eq, eq_refl, ◌==◌, if_cases, any, arith, All,
}
use know_gate.Db.Table.{find?, update_where}
use know_gate.Pipeline.Chunker.{Encoder, Chunk}
use know_gate.Pipeline.Chunker.Numbering.{IsNumbered, next_is}
use know_gate.Pipeline.Indexer.{
  Services, ChunkRow, row_of, is_chunk_row, upsert_row, persist_chunks,
}

module _ {A : Type 0} (p : A → Bool) where
  find?-update_all :
      (f : A → A) (xs : List A)
      → ((x : A) → p (f x) ≡ true)
      → any p xs ≡ true
      → (x : A) × (find? p (update_where p f xs) ≡ some (f x))
  unfolding find? update_where
  find?-update_all f [] found h = cc h
  find?-update_all f (x ∷ xs) found h = elim (Bool-cases (p x)) [
    | inl e ↦ (x, rw (e, found x) refl)
    | inr e ↦
        let rest = find?-update_all f xs found (ground (arith, h, e)) in (rest.0, rw (e, e) rest.1)
  ]

  find?-append_new :
      (xs : List A) (y : A) → any p xs ≡ false → p y ≡ true → find? p (xs ++ y ∷ []) ≡ some y
  unfolding find?
  find?-append_new [] y h e = rw e refl
  find?-append_new (x ∷ xs) y h e = ground (arith, find?-append_new xs y)

  find?-append_other : (xs : List A) (y : A) → p y ≡ false → find? p (xs ++ y ∷ []) ≡ find? p xs
  unfolding find?
  find?-append_other [] y e = rw e refl
  find?-append_other (x ∷ xs) y e = ground (arith, find?-append_other xs y e)

  find?-update_other :
      (q : A → Bool) (f : A → A) (xs : List A)
      → ((x : A) → q x ≡ true → (p x ≡ false) × (p (f x) ≡ false))
      → find? p (update_where q f xs) ≡ find? p xs
  unfolding find? update_where
  find?-update_other q f [] other = refl
  find?-update_other q f (x ∷ xs) other = elim (Bool-cases (q x)) [
    | inl e ↦ let o = other x e in rw (e, o.0, o.1) (find?-update_other q f xs other)
    | inr e ↦ rw e (ground (arith, find?-update_other q f xs other))
  ]

module _ (sv : Services) (doc_id : String) where
  -- A row with what is known of a chunk.
  pub record IsRowOf (c : Chunk) (r : ChunkRow) : Type 0 where
    pub place : (r.document_id ≡ doc_id) × (r.chunk_index ≡ c.chunk_index)
    pub text_lem : (r.chunk_text ≡ c.text) × (r.token_count ≡ c.token_count)
    pub section_lem : (r.section_title ≡ c.section_title) × (r.page_number ≡ c.page_number)
    pub language_lem : r.language ≡ sv.detect_language c.text
    pub point_lem : r.qdrant_point_id ≡ sv.make_point_id doc_id c.chunk_index

  row_of-IsRowOf : (id : String) (c : Chunk) → IsRowOf c (row_of sv doc_id id c)
  row_of-IsRowOf id c = record {
    place = (refl, refl);
    text_lem = (refl, refl);
    section_lem = (refl, refl);
    language_lem = refl;
    point_lem = refl;
  }

  -- The row of a chunk is found by the document and the index of the chunk.
  abbrev pub HasRow : List ChunkRow → Chunk → Type 0
  HasRow rows c =
      (r : ChunkRow) × (find? (λ x. str_eq x.document_id doc_id && x.chunk_index == c.chunk_index)
          rows
        ≡ some r)
      × IsRowOf c r

  upsert_row-HasRow : (c : Chunk) (rows : List ChunkRow) → HasRow (upsert_row sv doc_id c rows) c
  unfolding upsert_row
  upsert_row-HasRow c rows = elim (Bool-cases (any (is_chunk_row sv doc_id c.chunk_index) rows)) [
    | inl old ↦
        let found =
          find?-update_all (is_chunk_row sv doc_id c.chunk_index) (λ r. row_of sv doc_id r.id c)
            rows (λ r. itself) old in
        (row_of sv doc_id found.0.id c, rw old found.1, row_of-IsRowOf found.0.id c)
    | inr new ↦
        let row : ChunkRow = row_of sv doc_id (sv.new_row_id c.chunk_index) c in
        (
          row,
          rw new (find?-append_new (is_chunk_row sv doc_id c.chunk_index) rows row new itself),
          row_of-IsRowOf (sv.new_row_id c.chunk_index) c,
        )
  ]
    where
      itself : (str_eq doc_id doc_id && c.chunk_index == c.chunk_index) ≡ true
      itself = rw (eq_refl doc_id) (ground arith)

  upsert_row-other :
      (c : Chunk) (i : ℕ) (rows : List ChunkRow)
      → i < c.chunk_index
      → find? (is_chunk_row sv doc_id i) (upsert_row sv doc_id c rows)
        ≡ find? (is_chunk_row sv doc_id i) rows
  unfolding upsert_row
  upsert_row-other c i rows less =
      if_cases (λ new. find? (is_chunk_row sv doc_id i) new ≡ find? (is_chunk_row sv doc_id i) rows)
        (any (is_chunk_row sv doc_id c.chunk_index) rows)
        (λ _.
          find?-update_other (is_chunk_row sv doc_id i) (is_chunk_row sv doc_id c.chunk_index)
            (λ r. row_of sv doc_id r.id c) rows (λ r h. (ground arith, ground arith)))
        (λ _.
          find?-append_other (is_chunk_row sv doc_id i) rows
            (row_of sv doc_id (sv.new_row_id c.chunk_index) c) (ground arith))

  persist_chunks-other :
      (enc : Encoder) (start i : ℕ) (cs : List Chunk) (rows : List ChunkRow)
      → IsNumbered enc start cs
      → i < start
      → find? (is_chunk_row sv doc_id i) (persist_chunks sv doc_id cs rows)
        ≡ find? (is_chunk_row sv doc_id i) rows
  unfolding persist_chunks
  persist_chunks-other enc start i [] rows h less = refl
  persist_chunks-other enc start i (c ∷ cs) rows (next_is at text count h) less =
      persist_chunks-other enc (suc start) i cs (upsert_row sv doc_id c rows) h
        (omega (arith, less))
      ∙ upsert_row-other c i rows (omega (arith, at, less))

  -- Chunks that are numbered one after the other all have their rows.
  pub persist_chunks-HasRow :
      (enc : Encoder) (start : ℕ) (cs : List Chunk) (rows : List ChunkRow)
      → IsNumbered enc start cs
      → All (HasRow (persist_chunks sv doc_id cs rows)) cs
  unfolding persist_chunks
  persist_chunks-HasRow enc start [] rows h = tt
  persist_chunks-HasRow enc start (c ∷ cs) rows (next_is at text count h) =
      let first = upsert_row-HasRow c rows in
      let later = upsert_row sv doc_id c rows in
      (
        (
          first.0,
          persist_chunks-other enc (suc start) c.chunk_index cs later h (omega (arith, at))
              ∙ first.1,
          first.2,
        ),
        persist_chunks-HasRow enc (suc start) cs later h,
      )
