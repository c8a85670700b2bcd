-- ===== src/Retrieval/Reranker.antt =====
-- `rerank` of backend/app/retrieval/reranker.py. The cross-encoder is not part of the repository:
-- its scores of the passages, one for each, are a parameter.
use know_gate.Prelude.{
  ℕ, String, Bool, List, [], ◌∷◌, map, str_eq, if◌then◌else◌, if_cases, take, All, All-take,
}
use know_gate.Prelude.Sort.{sort_desc, sort_desc-All}
use know_gate.Retrieval.Score.{Score}
use know_gate.Retrieval.HybridSearch.{SearchCandidate, truthy}
use know_gate.Retrieval.Search.{or_other, is_nil}

abbrev pub default_top_k : ℕ
default_top_k = 5

abbrev pub max_candidates : ℕ
max_candidates = 50

pub record RerankResult (S : Type 0) : Type 0 where
  pub candidate : SearchCandidate S
  pub score : S

module _ {S : Type 0} where
  -- `c.text or c.section_title or ""`
  abbrev pub passage : SearchCandidate S → String
  passage c = if truthy c.text then c.text else or_other c.section_title ""

  -- The loop over `zip(truncated, scores)`; the model gives a score for each passage.
  unfoldable pub zip_scores : List (SearchCandidate S) → List S → List (RerankResult S)
  zip_scores [] scores = []
  zip_scores (c ∷ cs) [] = []
  zip_scores (c ∷ cs) (s ∷ scores) = record { candidate = c; score = s } ∷ zip_scores cs scores

  abbrev pub le_result : Score S → RerankResult S → RerankResult S → Bool
  le_result A a b = A.le a.score b.score

  unfoldable pub rerank :
      Score S
      → (String → String)
      → (String → List String → List S)
      → ℕ
      → String
      → List (SearchCandidate S)
      → List (RerankResult S)
  unfolding zip_scores
  rerank A strip predict top_k query candidates =
      let truncated = take max_candidates candidates in
      if is_nil candidates
      then []
      else if str_eq (strip query) ""
      then map (λ c. record { candidate = c; score = c.score }) (take top_k candidates)
      else take top_k
          (sort_desc (le_result A) (zip_scores truncated (predict query (map passage truncated))))

  zip_scores-All :
      (P : SearchCandidate S → Type 0) (cs : List (SearchCandidate S)) (scores : List S)
      → All P cs
      → All (λ r. P r.candidate) (zip_scores cs scores)
  unfolding zip_scores
  zip_scores-All P [] scores h = tt
  zip_scores-All P (c ∷ cs) [] h = tt
  zip_scores-All P (c ∷ cs) (s ∷ scores) h = (h.0, zip_scores-All P cs scores h.1)

  unchanged :
      (P : SearchCandidate S → Type 0) (cs : List (SearchCandidate S))
      → All P cs
      → All {A = RerankResult S}
          (λ r. P r.candidate)
          (map (λ c. record { candidate = c; score = c.score }) cs)
  unchanged P [] h = tt
  unchanged P (c ∷ cs) h = (h.0, unchanged P cs h.1)

  -- The reranker returns candidates that it was given.
  pub rerank-All :
      (P : SearchCandidate S → Type 0) (A : Score S) (strip : String → String)
      (predict : String → List String → List S) (top_k : ℕ) (query : String)
      (cs : List (SearchCandidate S))
      → All P cs
      → All (λ r. P r.candidate) (rerank A strip predict top_k query cs)
  unfolding rerank
  rerank-All P A strip predict top_k query cs h =
      let Q : RerankResult S → Type 0 = λ r. P r.candidate in
      if_cases (All Q) (is_nil cs) (λ _. tt)
        (λ _.
          if_cases (All Q) (str_eq (strip query) "")
            (λ _. unchanged P (take top_k cs) (All-take P top_k cs h))
            (λ _. All-take Q top_k _ (
              sort_desc-All (le_result A) Q _
                (zip_scores-All P (take max_candidates cs) _ (All-take P max_candidates cs h)))))
