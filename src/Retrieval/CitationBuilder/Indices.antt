-- ===== src/Retrieval/CitationBuilder/Indices.antt =====
-- The indices and the citations that `build_citations`
-- (backend/app/retrieval/citation_builder.py) returns.
use know_gate.Prelude.{
  ℕ, zero, suc, ◌+◌, ◌-◌, ◌<◌, ◌≡◌, refl, ap, ◌∙◌, Bool, true, false, ◌&&◌, not, Option, some, List,
  [], ◌∷◌, arith, length, All, get_elem?, String,
}
use know_gate.Prelude.Dict.{Dict}
use know_gate.Retrieval.HybridSearch.{SearchCandidate}
use know_gate.Retrieval.CitationBuilder.{
  is_in, unique_from, keep, in_range, make_extraction, Citation, CitationExtraction, citations_from,
  build_citations, extract_citation_indices,
}

-- No number occurs twice.
abbrev pub DistinctIndices : List ℕ → Type 0
DistinctIndices [] = Unit
DistinctIndices (i ∷ is) = (is_in i is ≡ false) × DistinctIndices is

is_in-keep : (p : ℕ → Bool) (i : ℕ) (is : List ℕ) → is_in i (keep p is) ≡ (is_in i is && p i)
unfolding is_in keep
is_in-keep p i [] = refl
is_in-keep p i (j ∷ is) = ground (arith, is_in-keep p i is)

is_in-unique_from :
    (i : ℕ) (seen is : List ℕ) → is_in i (unique_from seen is) ≡ (is_in i is && not (is_in i seen))
unfolding is_in unique_from
is_in-unique_from i seen [] = refl
is_in-unique_from i seen (j ∷ is) =
    ground (arith, is_in-unique_from i seen is, is_in-unique_from i (j ∷ seen) is)

unique_from-DistinctIndices : (seen is : List ℕ) → DistinctIndices (unique_from seen is)
unfolding is_in unique_from
unique_from-DistinctIndices seen [] = tt
unique_from-DistinctIndices seen (j ∷ is) = ground (
  arith,
  is_in-unique_from j (j ∷ seen) is,
  unique_from-DistinctIndices seen is,
  unique_from-DistinctIndices (j ∷ seen) is,
)

keep-DistinctIndices :
    (p : ℕ → Bool) (is : List ℕ) → DistinctIndices is → DistinctIndices (keep p is)
unfolding keep
keep-DistinctIndices p [] d = tt
keep-DistinctIndices p (i ∷ is) d = ground (arith, is_in-keep p i is, keep-DistinctIndices p is)

-- What `build_citations` says of the indices that the LLM used.
pub record IsExtraction (n : ℕ) (raw : List ℕ) (x : CitationExtraction) : Type 0 where
  pub used : (i : ℕ) → is_in i x.unique_indices ≡ (is_in i raw && in_range n i)
  pub ignored : (i : ℕ) → is_in i x.ignored_indices ≡ (is_in i raw && not (in_range n i))
  pub used_once : DistinctIndices x.unique_indices
  pub ignored_once : DistinctIndices x.ignored_indices

-- With n citations, an index is used exactly when the answer has it and it is from 1 to n, it is
-- ignored exactly when the answer has it and it is not, and neither list repeats an index.
make_extraction-IsExtraction : (n : ℕ) (raw : List ℕ) → IsExtraction n raw (make_extraction n raw)
unfolding make_extraction is_in
make_extraction-IsExtraction n raw = record {
  used = λ i. is_in-keep (in_range n) i (unique_from [] raw) ∙ rw is_in-unique_from (ground arith);
  ignored = λ i.
      is_in-keep (λ j. not (in_range n j)) i (unique_from [] raw)
      ∙ rw is_in-unique_from (ground arith);
  used_once =
      keep-DistinctIndices (in_range n) (unique_from [] raw) (unique_from-DistinctIndices [] raw);
  ignored_once =
      keep-DistinctIndices (λ j. not (in_range n j)) (unique_from [] raw)
        (unique_from-DistinctIndices [] raw);
}

All-fresh :
    (j : ℕ) (seen is : List ℕ)
    → is_in j is ≡ false
    → All (λ i. is_in i seen ≡ false) is
    → All (λ i. is_in i (j ∷ seen) ≡ false) is
unfolding is_in
All-fresh j seen [] h k = tt
All-fresh j seen (i ∷ is) h k = (ground (arith, k.0), All-fresh j seen is (ground arith) k.1)

nothing_seen : (is : List ℕ) → All (λ i. is_in i [] ≡ false) is
unfolding is_in
nothing_seen [] = tt
nothing_seen (i ∷ is) = (refl, nothing_seen is)

keep-All : (p : ℕ → Bool) (is : List ℕ) → All (λ i. p i ≡ true) is → keep p is ≡ is
unfolding keep
keep-All p [] h = refl
keep-All p (i ∷ is) h = rw (h.0, keep-All p is h.1)

unique_from_of_fresh :
    (seen is : List ℕ)
    → DistinctIndices is
    → All (λ i. is_in i seen ≡ false) is
    → unique_from seen is ≡ is
unfolding unique_from is_in
unique_from_of_fresh seen [] d h = refl
unique_from_of_fresh seen (j ∷ is) d h =
    rw h.0 (ap (◌∷◌ j) (unique_from_of_fresh (j ∷ seen) is d.1 (All-fresh j seen is d.0 h.1)))

-- The indices that an answer uses stay in the order of the answer: if it repeats none and all are
-- from 1 to n, the list is returned as it is, sorted or not.
make_extraction-order :
    (n : ℕ) (raw : List ℕ)
    → DistinctIndices raw
    → All (λ i. in_range n i ≡ true) raw
    → (make_extraction n raw).unique_indices ≡ raw
unfolding make_extraction
make_extraction-order n raw d h =
    rw (unique_from_of_fresh [] raw d (nothing_seen raw)) (keep-All (in_range n) raw h)

in_range-pred : (n i : ℕ) → in_range n i ≡ true → (i - 1 < n) × (i - 1 + 1 ≡ i)
in_range-pred n i h = ground arith

module _ {S Time : Type 0} (isoformat : Time → String) (slice200 : String → String) where
  citations_from-at :
      (titles urls : Dict String) (updated : Dict Time) (start i : ℕ)
      (cands : List (SearchCandidate S))
      → i < length cands
      → (cit : Citation S) × (cand : SearchCandidate S) × (get_elem?
            (citations_from isoformat slice200 titles urls updated start cands)
            i
          ≡ some cit)
        × (get_elem? cands i ≡ some cand)
        × (cit.citation_index ≡ start + i + 1)
        × (cit.chunk_id ≡ cand.chunk_id)
        × (cit.doc_id ≡ cand.doc_id)
  unfolding citations_from
  citations_from-at titles urls updated start i [] h = absurd (omega arith)
  citations_from-at titles urls updated start zero (c ∷ cands) h =
      (_, c, refl, refl, omega arith, refl, refl)
  citations_from-at titles urls updated start (suc i) (c ∷ cands) h =
      let (cit, cand, e, e', index, chunk, doc) =
        citations_from-at titles urls updated (suc start) i cands (omega arith) in
      (cit, cand, e, e', omega arith, chunk, doc)

  length-citations_from :
      (titles urls : Dict String) (updated : Dict Time) (start : ℕ)
      (cands : List (SearchCandidate S))
      → length (citations_from isoformat slice200 titles urls updated start cands) ≡ length cands
  unfolding citations_from
  length-citations_from titles urls updated start [] = refl
  length-citations_from titles urls updated start (c ∷ cands) =
      ap suc (length-citations_from titles urls updated (suc start) cands)

  -- Every index reported as used resolves: the citation at that place, counted from 1, carries the
  -- index, and the chunk and the document of the candidate at the same place of the list that the
  -- LLM was given.
  pub build_citations-resolve :
      (digit : ℕ → Option ℕ) (cands : List (SearchCandidate S)) (answer : List ℕ)
      (titles urls : Dict String) (updated : Dict Time) (i : ℕ)
      → is_in i
          (build_citations isoformat slice200 digit cands answer titles urls
            updated).1.unique_indices
        ≡ true
      → (cit : Citation S) × (cand : SearchCandidate S) × (get_elem?
            (build_citations isoformat slice200 digit cands answer titles urls updated).0
            (i - 1)
          ≡ some cit)
        × (get_elem? cands (i - 1) ≡ some cand)
        × (cit.citation_index ≡ i)
        × (cit.chunk_id ≡ cand.chunk_id)
        × (cit.doc_id ≡ cand.doc_id)
        × (i - 1 + 1 ≡ i)
  unfolding build_citations
  build_citations-resolve digit cands answer titles urls updated i h =
      let raw = extract_citation_indices digit answer in
      let n = length (citations_from isoformat slice200 titles urls updated 0 cands) in
      let x = make_extraction-IsExtraction n raw in
      let (below, back) = in_range-pred n i (ground (arith, x.used i)) in
      let size = length-citations_from titles urls updated 0 cands in
      let (cit, cand, e, e', index, chunk, doc) =
        citations_from-at titles urls updated 0 (i - 1) cands (omega arith) in
      (cit, cand, e, e', omega arith, chunk, doc, back)
