-- ===== src/Retrieval/HybridSearch/Ranking.antt =====
-- `merge_rrf` (backend/app/retrieval/hybrid_search.py) against Reciprocal Rank Fusion.
use know_gate.Prelude.{
  ℕ, suc, ◌≤◌, ◌≡◌, refl, sym, ◌∙◌, String, true, ◌||◌, some, ◌⊎◌, inl, inr, List, [], ◌∷◌, arith,
  All, All-take, All-drop, All-zip, All-map, take, drop, length, length-take,
}
use know_gate.Prelude.Dict.{has, keys, Distinct, keys-put, has-add_key, All-has, entries-get}
use know_gate.Prelude.Sort.{sort_desc, Descending, sort_desc-All, sort_desc-Descending}
use know_gate.Retrieval.Score.{Score, IsOrdered}
use know_gate.Retrieval.HybridSearch.{
  SearchCandidate, RetrievalSource, keyword, le_score, Fusion, accumulate_one, accumulate, collect,
  merge_rrf,
}
use know_gate.Retrieval.HybridSearch.Merge.{
  rrf_score, fused, fused-IsFusion, score-fused, collect_lem,
}
use know_gate.Retrieval.HybridSearch.Order.{
  ids, take-Distinct, has-take-or-drop, All-at, has-sort_desc, sort_desc-Distinct, Descending-cut,
  Descending-take,
}

module _ {S : Type 0} (A : Score S) where
  has-accumulate :
      (k : ℕ) (source : RetrievalSource) (r : ℕ) (cs : List (SearchCandidate S)) (f : Fusion A)
      (cid : String)
      → has cid (keys (accumulate A k source r cs f).scores)
        ≡ (has cid (ids cs) || has cid (keys f.scores))
  unfolding accumulate has
  has-accumulate k source r [] f cid = refl
  has-accumulate k source r (c ∷ cs) f cid =
      has-accumulate k source (suc r) cs (accumulate_one A k source r c f) cid
      ∙ simp (keys-put, has-add_key) (ground arith)

  -- The chunks of a fusion are those of the two lists.
  has-fused :
      (k : ℕ) (vec kw : List (SearchCandidate S)) (cid : String)
      → has cid (keys (fused A k vec kw).scores) ≡ (has cid (ids kw) || has cid (ids vec))
  unfolding has
  has-fused k vec kw cid = has-accumulate k keyword 0 kw _ cid ∙ rw has-accumulate (ground arith)

  -- The merged list before sorting and cutting.
  pub record IsMerged (k : ℕ) (vec kw merged : List (SearchCandidate S)) : Type 0 where
    pub exact : All (λ c. c.score ≡ rrf_score A k vec kw c.chunk_id) merged
    pub distinct : Distinct (ids merged)
    pub chunks : (cid : String) → has cid (ids merged) ≡ (has cid (ids kw) || has cid (ids vec))

  collect-fused :
      (k : ℕ) (vec kw : List (SearchCandidate S))
      → (merged : List (SearchCandidate S)) × (collect A
            (fused A k vec kw).scores
            (fused A k vec kw).candidates
          ≡ some merged)
        × IsMerged k vec kw merged
  collect-fused k vec kw =
      let f = fused A k vec kw in
      let v = fused-IsFusion A k vec kw in
      let (merged, collected, same, exact) =
        collect_lem A f f.scores v (entries-get f.scores v.distinct)
          (All-has _ (keys f.scores) (λ cid h. rw (← v.same_keys) h)) in
      (
        merged,
        collected,
        record {
          exact = All-map (λ c e. e ∙ score-fused A k vec kw c.chunk_id) merged exact;
          distinct = rw same v.distinct;
          chunks = λ cid. rw same (has-fused k vec kw cid);
        },
      )

  at_ids :
      (P : String → Type 0) (cs : List (SearchCandidate S))
      → All P (ids cs)
      → All (λ c. P c.chunk_id) cs
  at_ids P [] h = tt
  at_ids P (c ∷ cs) h = (h.0, at_ids P cs h.1)

  -- A result of the merge is a chunk of one of the lists.
  pub merge_rrf-sources :
      (k top_k : ℕ) (vec kw : List (SearchCandidate S))
      → (out : List (SearchCandidate S)) × (merge_rrf A k top_k vec kw ≡ some out)
        × All (λ c. (has c.chunk_id (ids kw) || has c.chunk_id (ids vec)) ≡ true) out
  unfolding merge_rrf
  merge_rrf-sources k top_k vec kw =
      let (merged, collected, m) = collect-fused k vec kw in
      let P : String → Type 0 = λ cid. (has cid (ids kw) || has cid (ids vec)) ≡ true in
      (
        take top_k (sort_desc (le_score A) merged),
        rw collected refl,
        All-take _ top_k (sort_desc (le_score A) merged) (
            sort_desc-All (le_score A) (λ c. P c.chunk_id) merged
              (at_ids P merged (All-has P (ids merged) (λ cid h. sym (m.chunks cid) ∙ h)))),
      )

  -- What a caller of `merge_rrf` gets.
  pub record IsRanking (k top_k : ℕ) (vec kw out : List (SearchCandidate S)) : Type 0 where
    pub exact : All (λ c. c.score ≡ rrf_score A k vec kw c.chunk_id) out
    pub distinct : Distinct (ids out)
    pub descending : Descending (le_score A) out
    pub bounded : length out ≤ top_k
    pub best :
        (cid : String)
        → (has cid (ids kw) || has cid (ids vec)) ≡ true
        → (has cid (ids out) ≡ true) ⊎ All (λ c. A.le (rrf_score A k vec kw cid) c.score ≡ true) out

  cut-best :
      (k top_k : ℕ) (vec kw sorted : List (SearchCandidate S)) (cid : String)
      → All (λ c. c.score ≡ rrf_score A k vec kw c.chunk_id) sorted
      → Descending (le_score A) sorted
      → has cid (ids sorted) ≡ true
      → (has cid (ids (take top_k sorted)) ≡ true)
        ⊎ All (λ c. A.le (rrf_score A k vec kw cid) c.score ≡ true) (take top_k sorted)
  cut-best k top_k vec kw sorted cid exact desc h = elim (has-take-or-drop cid top_k sorted h) [
    | inl kept ↦ inl kept
    | inr cut ↦
        let (d, (e, below), same) =
          All-at
            (λ d.
              (d.score ≡ rrf_score A k vec kw d.chunk_id)
              × All (λ c. A.le d.score c.score ≡ true) (take top_k sorted))
            cid (drop top_k sorted)
            (All-zip (λ c e b. (e, b)) (drop top_k sorted) (All-drop _ top_k sorted exact)
              (Descending-cut (le_score A) top_k sorted desc))
            cut in
        inr (rw (← same, ← e) below)
  ]

  module _ (ordered : IsOrdered A) where
    -- `merge_rrf` never meets a missing key. Its result has at most `top_k` candidates, in
    -- descending order of score and with no chunk twice; the score of each is the sum of
    -- 1 / (k + rank) over its places in the two lists; and a chunk of either list that is not in
    -- the result scores at most as much as each that is.
    pub merge_rrf-IsRanking :
        (k top_k : ℕ) (vec kw : List (SearchCandidate S))
        → (out : List (SearchCandidate S)) × (merge_rrf A k top_k vec kw ≡ some out)
          × IsRanking k top_k vec kw out
    unfolding merge_rrf
    merge_rrf-IsRanking k top_k vec kw =
        let (merged, collected, m) = collect-fused k vec kw in
        let le = le_score A in
        let sorted = sort_desc le merged in
        let desc =
          sort_desc-Descending le (λ a b c. ordered.le_trans a.score b.score c.score)
            (λ a b. ordered.le_total a.score b.score) merged in
        let exact = sort_desc-All le _ merged m.exact in
        (
          take top_k sorted,
          rw collected,
          record {
            exact = All-take _ top_k sorted exact;
            distinct = take-Distinct top_k sorted (sort_desc-Distinct le merged m.distinct);
            descending = Descending-take le top_k sorted desc;
            bounded = omega (arith, length-take top_k sorted);
            best = λ cid h.
                cut-best k top_k vec kw sorted cid exact desc
                  (has-sort_desc le cid merged ∙ m.chunks cid ∙ h);
          },
        )
