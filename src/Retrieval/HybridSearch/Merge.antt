-- ===== src/Retrieval/HybridSearch/Merge.antt =====
-- What `merge_rrf` (backend/app/retrieval/hybrid_search.py) puts into the merged list: the invariant
-- of the two dicts, and the scores against the formula of Reciprocal Rank Fusion.
use know_gate.Prelude.{
  ℕ, suc, ◌+◌, ◌≡◌, refl, ◌∙◌, ap, String, true, Option, none, some, List, [], ◌∷◌, arith, str_eq,
  eq_iff, if◌then◌else◌, All,
}
use know_gate.Prelude.Dict.{
  Dict, get, has, keys, Distinct, add_key, get-put, keys-put, get_of_has, add_key-Distinct,
}
use know_gate.Retrieval.Score.{Score}
use know_gate.Retrieval.HybridSearch.Order.{ids}
use know_gate.Retrieval.HybridSearch.{
  SearchCandidate, RetrievalSource, vector, keyword, merge_found, first_found, or_zero, found,
  Fusion, accumulate_one, accumulate, no_results, collect,
}

module _ {S : Type 0} (A : Score S) where
  -- The sum of `1 / (k + rank)` over the places of `cid` in the list, added to `acc` in order;
  -- ranks count from `rank_zero + 1`.
  unfoldable pub rank_sum : ℕ → String → ℕ → List (SearchCandidate S) → S → S
  rank_sum k cid rank_zero [] acc = acc
  rank_sum k cid rank_zero (c ∷ cs) acc =
      rank_sum k cid (suc rank_zero) cs
        (if str_eq c.chunk_id cid then A.add acc (A.recip (k + rank_zero + 1)) else acc)

  -- The score of a chunk by the formula of the module's doc.
  unfoldable pub rrf_score : ℕ → List (SearchCandidate S) → List (SearchCandidate S) → String → S
  unfolding rank_sum
  rrf_score k vec kw cid = rank_sum k cid 0 kw (rank_sum k cid 0 vec A.zero_score)

  pub record IsFusion (f : Fusion A) : Type 0 where
    pub same_keys : keys f.scores ≡ keys f.candidates
    pub distinct : Distinct (keys f.scores)
    pub keyed :
        (cid : String) (c : SearchCandidate S) → get cid f.candidates ≡ some c → c.chunk_id ≡ cid

  score-accumulate :
      (k : ℕ) (source : RetrievalSource) (r : ℕ) (cs : List (SearchCandidate S)) (f : Fusion A)
      (cid : String)
      → or_zero A (get cid (accumulate A k source r cs f).scores)
        ≡ rank_sum k cid r cs (or_zero A (get cid f.scores))
  unfolding accumulate rank_sum
  score-accumulate k source r [] f cid = refl
  score-accumulate k source r (c ∷ cs) f cid =
      score-accumulate k source (suc r) cs (accumulate_one A k source r c f) cid
      ∙ ap (rank_sum k cid (suc r) cs) (
          ground (
            arith,
            get-put c.chunk_id cid
                (A.add (or_zero A (get c.chunk_id f.scores)) (A.recip (k + r + 1))) f.scores,
            eq_iff c.chunk_id cid,
          ))

  found-chunk_id :
      (o : Option (SearchCandidate S)) (c : SearchCandidate S) (source : RetrievalSource)
      → ((e : SearchCandidate S) → o ≡ some e → e.chunk_id ≡ c.chunk_id)
      → (found A o c source).chunk_id ≡ c.chunk_id
  unfolding merge_found first_found
  found-chunk_id none c source h = refl
  found-chunk_id (some e) c source h = h e refl

  accumulate_one-IsFusion :
      (k : ℕ) (source : RetrievalSource) (r : ℕ) (c : SearchCandidate S) (f : Fusion A)
      → IsFusion f
      → IsFusion (accumulate_one A k source r c f)
  unfolding accumulate_one
  accumulate_one-IsFusion k source r c f v = record {
    same_keys = simp keys-put (ap (add_key c.chunk_id) v.same_keys);
    distinct = rw keys-put (add_key-Distinct c.chunk_id (keys f.scores) v.distinct);
    keyed = λ cid d h. ground (
      arith,
      get-put c.chunk_id cid (found A (get c.chunk_id f.candidates) c source) f.candidates,
      eq_iff c.chunk_id cid,
      found-chunk_id (get c.chunk_id f.candidates) c source (v.keyed c.chunk_id),
      v.keyed cid d,
    );
  }

  accumulate-IsFusion :
      (k : ℕ) (source : RetrievalSource) (r : ℕ) (cs : List (SearchCandidate S)) (f : Fusion A)
      → IsFusion f
      → IsFusion (accumulate A k source r cs f)
  unfolding accumulate
  accumulate-IsFusion k source r [] f v = v
  accumulate-IsFusion k source r (c ∷ cs) f v =
      accumulate-IsFusion k source (suc r) cs (accumulate_one A k source r c f)
        (accumulate_one-IsFusion k source r c f v)

  -- The two dicts after both lists.
  abbrev pub fused : ℕ → List (SearchCandidate S) → List (SearchCandidate S) → Fusion A
  fused k vec kw = accumulate A k keyword 0 kw (accumulate A k vector 0 vec (no_results A))

  pub fused-IsFusion : (k : ℕ) (vec kw : List (SearchCandidate S)) → IsFusion (fused k vec kw)
  unfolding get
  fused-IsFusion k vec kw = accumulate-IsFusion k keyword 0 kw _ (
      accumulate-IsFusion k vector 0 vec _
        (record { same_keys = refl; distinct = tt; keyed = λ cid c h. cc }))

  pub score-fused :
      (k : ℕ) (vec kw : List (SearchCandidate S)) (cid : String)
      → or_zero A (get cid (fused k vec kw).scores) ≡ rrf_score k vec kw cid
  unfolding rrf_score get
  score-fused k vec kw cid =
      score-accumulate k keyword 0 kw (accumulate A k vector 0 vec (no_results A)) cid
      ∙ ap (rank_sum k cid 0 kw) (score-accumulate k vector 0 vec (no_results A) cid)

  -- What `collect` makes of part of the scores of a fusion.
  pub collect_lem :
      (f : Fusion A) (scores : Dict S)
      → IsFusion f
      → All (λ e. get e.0 f.scores ≡ some e.1) scores
      → All (λ cid. has cid (keys f.candidates) ≡ true) (keys scores)
      → (out : List (SearchCandidate S)) × (collect A scores f.candidates ≡ some out)
        × (ids out ≡ keys scores)
        × All (λ c. c.score ≡ or_zero A (get c.chunk_id f.scores)) out
  unfolding collect
  collect_lem f [] v e h = ([], refl, refl, tt)
  collect_lem f ((cid, sc) ∷ scores) v e h =
      let (cand, found) = get_of_has cid f.candidates h.0 in
      let (out, collected, same, exact) = collect_lem f scores v e.1 h.1 in
      let own = v.keyed cid cand found in
      (record cand { score = sc } ∷ out, rw (found, collected), cc, (rw (own, e.0), exact))
