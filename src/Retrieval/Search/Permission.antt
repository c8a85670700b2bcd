-- ===== src/Retrieval/Search/Permission.antt =====
-- Which chunks a search of backend/app/retrieval/hybrid_search.py can return.
use know_gate.Prelude.{
  ℕ, ◌≡◌, refl, subst, String, Bool, true, not, ◌&&◌, ◌||◌, Option, none, some, List, [], ◌∷◌, map,
  str_eq, eq_refl, arith, if_cases, any, All, All-append, All-map, All-take, Bool-cases, inl, inr,
}
use know_gate.Prelude.Dict.{Dict, get, put, has}
use know_gate.Prelude.Sort.{sort_desc-All}
use know_gate.Db.Table.{select}
use know_gate.Retrieval.Score.{Score}
use know_gate.Retrieval.HybridSearch.{SearchCandidate, truthy}
use know_gate.Retrieval.HybridSearch.Order.{ids, All-at}
use know_gate.Retrieval.HybridSearch.Ranking.{merge_rrf-sources}
use know_gate.Retrieval.Search.{
  Chunk, Point, Qdrant, or_other, query_filter, point_candidate, search_vector, rows_of, join,
  row_candidate, search_keyword, text_by_id, index_by_id, set_text, set_texts, values,
  hydrate_text_from_db, search, is_nil,
}

-- The document of the chunk is shared with one of the groups.
abbrev pub document_shared : List String → List (String × String) → Chunk → Bool
document_shared group_ids document_groups c =
    any (λ p. str_eq p.0 c.document_id && has p.1 group_ids) document_groups

-- Some row of `chunks` has the id, and its document is shared.
abbrev pub chunk_shared : List Chunk → List (String × String) → List String → String → Bool
chunk_shared chunks document_groups group_ids cid =
    any (λ c. str_eq c.id cid && document_shared group_ids document_groups c) chunks

-- Some point is of the chunk, is active and names one of the groups.
abbrev pub point_shared : {S : Type 0} → List (Point S) → List String → String → Bool
point_shared points group_ids cid =
    any (λ p. str_eq (or_other p.chunk_id p.id) cid && query_filter group_ids p) points

some-eq : {A : Type 0} {x y : A} → some x ≡ some y → x ≡ y
some-eq e = cc e

module _ {A : Type 0} (p : A → Bool) (name : A → String) where
  select-any :
      (xs : List A) → All (λ x. any (λ y. str_eq (name y) (name x) && p y) xs ≡ true) (select p xs)
  unfolding select
  select-any [] = tt
  select-any (x ∷ xs) =
      let P : A → Type 0 = λ z. any (λ y. str_eq (name y) (name z) && p y) (x ∷ xs) ≡ true in
      let rest : All P (select p xs) =
        All-map (λ z h. ground (arith, h)) (select p xs) (select-any xs) in
      if_cases (All P) (p x) (λ e. (rw (eq_refl (name x), e) refl, rest)) (λ _. rest)

module _ (group_ids : List String) where
  rows_of-All :
      (P : Chunk → Type 0) (c : Chunk) (pairs : List (String × String))
      → (document_shared group_ids pairs c ≡ true → P c)
      → All P (rows_of group_ids c pairs)
  unfolding rows_of
  rows_of-All P c [] h = tt
  rows_of-All P c ((d, g) ∷ pairs) h =
      let rest = rows_of-All P c pairs (λ e. h (ground (arith, e))) in
      if_cases (All P) (str_eq d c.document_id && has g group_ids)
        {x = c ∷ rows_of group_ids c pairs} (λ e. (h (rw e refl), rest)) (λ _. rest)

  join-shared :
      (fits : Chunk → Bool) (pairs : List (String × String)) (chunks : List Chunk)
      → All
          (λ r. chunk_shared chunks pairs group_ids r.id ≡ true)
          (join fits group_ids pairs chunks)
  unfolding join
  join-shared fits pairs [] = tt
  join-shared fits pairs (c ∷ chunks) =
      let P : Chunk → Type 0 = λ r. chunk_shared (c ∷ chunks) pairs group_ids r.id ≡ true in
      let rest : All P (join fits group_ids pairs chunks) =
        All-map (λ r h. ground (arith, h)) (join fits group_ids pairs chunks)
          (join-shared fits pairs chunks) in
      if_cases (All P) (fits c)
        (λ _.
          All-append P (rows_of group_ids c pairs) (join fits group_ids pairs chunks)
            (rows_of-All P c pairs (λ e. rw (eq_refl c.id, e) refl)) rest)
        (λ _. rest)

All-of-map :
    {A B : Type 0} (f : A → B) (P : B → Type 0) (xs : List A)
    → All (λ x. P (f x)) xs
    → All P (map f xs)
All-of-map f P [] h = tt
All-of-map f P (x ∷ xs) h = (h.0, All-of-map f P xs h.1)

module _ {S : Type 0} where
  search_vector-shared :
      (qdrant : Qdrant S) (query_vector : qdrant.Vector) (group_ids : List String) (top_k : ℕ)
      → All
          (λ c. point_shared qdrant.points group_ids c.chunk_id ≡ true)
          (search_vector qdrant query_vector group_ids top_k)
  unfolding search_vector point_candidate
  search_vector-shared qdrant query_vector group_ids top_k =
      if_cases (All (λ c. point_shared qdrant.points group_ids c.chunk_id ≡ true))
        (is_nil group_ids) (λ _. tt)
        (λ _. All-of-map point_candidate _ _ (
          qdrant.query_points-All _ query_vector (query_filter group_ids) top_k
            (select-any (query_filter group_ids) (λ p. or_other p.chunk_id p.id) qdrant.points)))

  search_keyword-shared :
      (A : Score S) (fits : Chunk → Bool) (ts_rank : Chunk → S) (chunks : List Chunk)
      (pairs : List (String × String)) (group_ids : List String) (top_k : ℕ)
      → All
          (λ c. chunk_shared chunks pairs group_ids c.chunk_id ≡ true)
          (search_keyword A fits ts_rank chunks pairs group_ids top_k)
  unfolding search_keyword row_candidate
  search_keyword-shared A fits ts_rank chunks pairs group_ids top_k =
      let P : SearchCandidate S → Type 0 =
        λ c. chunk_shared chunks pairs group_ids c.chunk_id ≡ true in
      All-take P top_k _ (
        sort_desc-All _ P _
          (All-of-map (row_candidate ts_rank) P _ (join-shared group_ids fits pairs chunks)))

  -- What holds of the candidates by their chunks is not changed by filling in the texts.
  module _ (P : String → Type 0) where
    Holds : Dict (SearchCandidate S) → Type 0
    Holds d = All (λ e. P e.1.chunk_id) d

    put-Holds :
        (k : String) (c : SearchCandidate S) (d : Dict (SearchCandidate S))
        → P c.chunk_id
        → Holds d
        → Holds (put k c d)
    unfolding put Holds
    put-Holds k c [] p h = (p, tt)
    put-Holds k c ((j, b) ∷ d) p h =
        if_cases Holds (str_eq j k) {x = (j, c) ∷ d} {y = (j, b) ∷ put k c d} (λ _. (p, h.1))
          (λ _. (h.0, put-Holds k c d p h.1))

    get-Holds :
        (k : String) (c : SearchCandidate S) (d : Dict (SearchCandidate S))
        → Holds d
        → get k d ≡ some c
        → P c.chunk_id
    unfolding get Holds
    get-Holds k c [] h e = cc e
    get-Holds k c ((j, b) ∷ d) h e = elim (Bool-cases (str_eq j k)) [
      | inl t ↦ subst (λ b. P b.chunk_id) (some-eq (rw t at e)) h.0
      | inr f ↦ get-Holds k c d h.1 (rw f at e)
    ]

    index_by_id-Holds :
        (cs : List (SearchCandidate S)) (d : Dict (SearchCandidate S))
        → All (λ c. P c.chunk_id) cs
        → Holds d
        → Holds (index_by_id cs d)
    unfolding index_by_id
    index_by_id-Holds [] d h k = k
    index_by_id-Holds (c ∷ cs) d h k =
        index_by_id-Holds cs (put c.chunk_id c d) h.1 (put-Holds c.chunk_id c d h.0 k)

    set_text-Holds :
        (cid text : String) (o : Option (SearchCandidate S)) (d : Dict (SearchCandidate S))
        → ((c : SearchCandidate S) → o ≡ some c → P c.chunk_id)
        → Holds d
        → Holds (set_text cid text o d)
    set_text-Holds cid text none d g h = h
    set_text-Holds cid text (some c) d g h = put-Holds cid (record c { text = text }) d (g c refl) h

    set_texts-Holds :
        (texts : Dict String) (d : Dict (SearchCandidate S)) → Holds d → Holds (set_texts texts d)
    unfolding set_texts
    set_texts-Holds [] d h = h
    set_texts-Holds ((cid, text) ∷ texts) d h =
        set_texts-Holds texts (set_text cid text (get cid d) d)
          (set_text-Holds cid text (get cid d) d (λ c e. get-Holds cid c d h e) h)

    hydrate-Holds :
        (chunks : List Chunk) (cs : List (SearchCandidate S))
        → All (λ c. P c.chunk_id) cs
        → All (λ c. P c.chunk_id) (hydrate_text_from_db chunks cs)
    unfolding hydrate_text_from_db Holds
    hydrate-Holds chunks cs h =
        let missing = select (λ c. not (truthy c.text)) cs in
        let texts = text_by_id (map (λ c. c.chunk_id) missing) chunks [] in
        let filled = set_texts texts (index_by_id cs []) in
        if_cases (All (λ c. P c.chunk_id)) (is_nil missing) {y = values filled} (λ _. h)
          (λ _.
            All-of-map (λ (e : String × SearchCandidate S). e.1) (λ c. P c.chunk_id) filled
              (set_texts-Holds texts (index_by_id cs []) (index_by_id-Holds cs [] h tt)))

  either :
      (cid : String) (kw vec : List (SearchCandidate S)) (f g : String → Bool)
      → All (λ c. f c.chunk_id ≡ true) kw
      → All (λ c. g c.chunk_id ≡ true) vec
      → (has cid (ids kw) || has cid (ids vec)) ≡ true
      → (f cid || g cid) ≡ true
  either cid kw vec f g h k e = elim (Bool-cases (has cid (ids kw))) [
    | inl a ↦ let (c, t, same) = All-at _ cid kw h a in rw (subst (λ i. f i ≡ true) same t) refl
    | inr b ↦
        let (c, t, same) = All-at _ cid vec k (rw b at e) in
        ground (arith, subst (λ i. g i ≡ true) same t)
  ]

  -- A search never meets a missing key, and each chunk that it returns is of a document that is shared
  -- in the tables with a group of the caller, or of an active point of the collection that names
  -- such a group.
  pub search-shared :
      (A : Score S) (qdrant : Qdrant S) (rrf_k top_k : ℕ) (fits : Chunk → Bool)
      (ts_rank : Chunk → S) (chunks : List Chunk) (document_groups : List (String × String))
      (query_vector : qdrant.Vector) (group_ids : List String)
      → (out : List (SearchCandidate S)) × (search A qdrant rrf_k top_k fits ts_rank chunks
            document_groups query_vector group_ids
          ≡ some out)
        × All
            (λ c.
              (chunk_shared chunks document_groups group_ids c.chunk_id
                || point_shared qdrant.points group_ids c.chunk_id)
              ≡ true)
            out
  unfolding search
  search-shared A qdrant rrf_k top_k fits ts_rank chunks document_groups query_vector group_ids =
      let vec = search_vector qdrant query_vector group_ids top_k in
      let kw = search_keyword A fits ts_rank chunks document_groups group_ids top_k in
      let (merged, e, from) = merge_rrf-sources A rrf_k top_k vec kw in
      let kw_shared = search_keyword-shared A fits ts_rank chunks document_groups group_ids top_k in
      let vec_shared = search_vector-shared qdrant query_vector group_ids top_k in
      let P : String → Type 0 = λ cid.
        (chunk_shared chunks document_groups group_ids cid
          || point_shared qdrant.points group_ids cid)
        ≡ true in
      (
        hydrate_text_from_db chunks merged,
        rw e refl,
        hydrate-Holds P chunks merged
            (All-map (λ c h. either c.chunk_id kw vec _ _ kw_shared vec_shared h) merged from),
      )
