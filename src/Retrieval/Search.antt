-- ===== src/Retrieval/Search.antt =====
-- The two searches of backend/app/retrieval/hybrid_search.py, over the tables and over Qdrant, and
-- `HybridSearcher.search`. Qdrant and the text search of PostgreSQL are not part of the repository:
-- the first is an interface, the second the two parameters `fits` and `ts_rank`.
pub mod Permission
use know_gate.Prelude.{
  ℕ, ◌≡◌, ◌≤◌, refl, String, Bool, true, false, not, ◌&&◌, ◌||◌, Option, none, some, List, [], ◌∷◌,
  ◌++◌, map, str_eq, if◌then◌else◌, any, take, All, length,
}
use know_gate.Prelude.Dict.{Dict, get, put, has}
use know_gate.Prelude.Sort.{sort_desc}
use know_gate.Prelude.Do.{◌>>=◌}
use know_gate.Db.Table.{select}
use know_gate.Retrieval.Score.{Score}
use know_gate.Retrieval.HybridSearch.{SearchCandidate, Payload, vector, keyword, truthy, merge_rrf}

-- The columns of the table `chunks` that the search reads.
pub record Chunk : Type 0 where
  pub id : String
  pub document_id : String
  pub section_title : Option String
  pub chunk_text : String
  pub page_number : Option ℕ
  pub language : Option String

-- A point of the collection, with what its payload has.
pub record Point (S : Type 0) : Type 0 where
  pub id : String
  pub score : S
  pub chunk_id : Option String
  pub doc_id : Option String
  pub group_ids : List String
  pub section_title : Option String
  pub page_number : Option ℕ
  pub language : Option String
  pub payload : Payload

-- `payload.get(k) or other`
abbrev pub or_other : Option String → String → String
or_other none other = other
or_other (some s) other = if truthy s then s else other

abbrev pub equals : Option String → String → Bool
equals none s = false
equals (some t) s = str_eq t s

abbrev pub is_nil {ℓ} : {A : Type ℓ} → List A → Bool
is_nil [] = true
is_nil (x ∷ xs) = false

-- `query_points` answers with points that pass the filter, at most `limit` of them, the nearest
-- first.
pub record Qdrant (S : Type 0) : Type 1 where
  pub Vector : Type 0
  pub points : List (Point S)
  pub query_points : Vector → (Point S → Bool) → ℕ → List (Point S)
  pub query_points-All :
      (P : Point S → Type 0) (query : Vector) (filter : Point S → Bool) (limit : ℕ)
      → All P (select filter points)
      → All P (query_points query filter limit)
  pub length-query_points :
      (query : Vector) (filter : Point S → Bool) (limit : ℕ)
      → length (query_points query filter limit) ≤ limit

-- The rows of the join of `chunks` with `document_groups` that fit the question, for one chunk and
-- then for all: a chunk comes once for each group of its document that the caller is in.
unfoldable pub rows_of : List String → Chunk → List (String × String) → List Chunk
rows_of group_ids c [] = []
rows_of group_ids c ((document_id, group_id) ∷ pairs) =
    let rest = rows_of group_ids c pairs in
    if str_eq document_id c.document_id && has group_id group_ids then c ∷ rest else rest

unfoldable pub join :
    (Chunk → Bool) → List String → List (String × String) → List Chunk → List Chunk
unfolding rows_of
join fits group_ids pairs [] = []
join fits group_ids pairs (c ∷ chunks) =
    let rest = join fits group_ids pairs chunks in
    if fits c then rows_of group_ids c pairs ++ rest else rest

abbrev no_payload : Payload
no_payload = record { source = none; source_id = none; status = none; indexed_at = none }

-- `text_by_id`: the texts of the chunks without one in the candidates.
unfoldable pub text_by_id : List String → List Chunk → Dict String → Dict String
text_by_id chunk_ids [] d = d
text_by_id chunk_ids (c ∷ chunks) d =
    if has c.id chunk_ids
    then text_by_id chunk_ids chunks (put c.id c.chunk_text d)
    else text_by_id chunk_ids chunks d

module _ {S : Type 0} where
  -- The `must` conditions.
  unfoldable pub query_filter : List String → Point S → Bool
  query_filter group_ids p =
      any (λ g. has g group_ids) p.group_ids && equals p.payload.status "active"

  unfoldable pub point_candidate : Point S → SearchCandidate S
  point_candidate p = record {
    chunk_id = or_other p.chunk_id p.id;
    doc_id = or_other p.doc_id "";
    text = "";
    score = p.score;
    retrieval_source = vector;
    payload = p.payload;
    section_title = p.section_title;
    page_number = p.page_number;
    language = p.language;
  }

  unfoldable pub search_vector :
      (qdrant : Qdrant S) → qdrant.Vector → List String → ℕ → List (SearchCandidate S)
  unfolding query_filter point_candidate
  search_vector qdrant query_vector group_ids top_k =
      if is_nil group_ids
      then []
      else map point_candidate (qdrant.query_points query_vector (query_filter group_ids) top_k)

  unfoldable pub row_candidate : (Chunk → S) → Chunk → SearchCandidate S
  row_candidate ts_rank c = record {
    chunk_id = c.id;
    doc_id = c.document_id;
    text = c.chunk_text;
    score = ts_rank c;
    retrieval_source = keyword;
    payload = no_payload;
    section_title = c.section_title;
    page_number = c.page_number;
    language = c.language;
  }

  -- `fits` is `tsv @@ plainto_tsquery(q)` and `ts_rank` its rank, for the question. Rows of equal
  -- rank, whose order PostgreSQL leaves open, keep the order of the table.
  unfoldable pub search_keyword :
      Score S
      → (Chunk → Bool)
      → (Chunk → S)
      → List Chunk
      → List (String × String)
      → List String
      → ℕ
      → List (SearchCandidate S)
  unfolding join row_candidate
  search_keyword A fits ts_rank chunks document_groups group_ids top_k = take top_k (
      sort_desc (λ c d. A.le c.score d.score)
        (map (row_candidate ts_rank) (join fits group_ids document_groups chunks)))

  unfoldable pub index_by_id :
      List (SearchCandidate S) → Dict (SearchCandidate S) → Dict (SearchCandidate S)
  index_by_id [] d = d
  index_by_id (c ∷ cs) d = index_by_id cs (put c.chunk_id c d)

  abbrev pub set_text :
      String
      → String
      → Option (SearchCandidate S)
      → Dict (SearchCandidate S)
      → Dict (SearchCandidate S)
  set_text cid text none by_id = by_id
  set_text cid text (some c) by_id = put cid (record c { text = text }) by_id

  unfoldable pub set_texts : Dict String → Dict (SearchCandidate S) → Dict (SearchCandidate S)
  set_texts [] by_id = by_id
  set_texts ((cid, text) ∷ texts) by_id = set_texts texts (set_text cid text (get cid by_id) by_id)

  abbrev pub values : Dict (SearchCandidate S) → List (SearchCandidate S)
  values = map (λ e. e.1)

  unfoldable pub hydrate_text_from_db :
      List Chunk → List (SearchCandidate S) → List (SearchCandidate S)
  unfolding text_by_id index_by_id set_texts
  hydrate_text_from_db chunks candidates =
      let missing = select (λ c. not (truthy c.text)) candidates in
      if is_nil missing
      then candidates
      else values (
          set_texts (text_by_id (map (λ c. c.chunk_id) missing) chunks [])
            (index_by_id candidates []))

  -- `HybridSearcher.search`; `none` is a KeyError in the merge.
  unfoldable pub search :
      (A : Score S) (qdrant : Qdrant S)
      → ℕ
      → ℕ
      → (Chunk → Bool)
      → (Chunk → S)
      → List Chunk
      → List (String × String)
      → qdrant.Vector
      → List String
      → Option (List (SearchCandidate S))
  unfolding search_vector search_keyword hydrate_text_from_db
  search A qdrant rrf_k top_k fits ts_rank chunks document_groups query_vector group_ids = do
    merged ←
        merge_rrf A rrf_k top_k (search_vector qdrant query_vector group_ids top_k)
          (search_keyword A fits ts_rank chunks document_groups group_ids top_k)
    some (hydrate_text_from_db chunks merged)
