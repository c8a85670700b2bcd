-- ===== src/Retrieval/Confidence.antt =====
-- `_confidence_from_score` of backend/app/retrieval/pipeline.py, the label that a query's row gets
-- from the fused score of its first candidate.
use know_gate.Prelude.{
  ◌≡◌, ◌≢◌, String, true, false, ◌⊎◌, inl, inr, List, arith, if◌then◌else◌, Bool-cases,
}
use know_gate.Prelude.Dict.{has, Distinct}
use know_gate.Retrieval.Score.{Score, IsOrdered}
use know_gate.Retrieval.HybridSearch.{SearchCandidate, default_rrf_k}
use know_gate.Retrieval.HybridSearch.Merge.{rrf_score}
use know_gate.Retrieval.HybridSearch.Order.{ids}
use know_gate.Retrieval.HybridSearch.Bounds.{rrf_score-le}

pub data Confidence : Type 0 where
  high medium low : Confidence

module _ {S : Type 0} (A : Score S) where
  -- `high_score` and `medium_score` are the doubles 0.05 and 0.02.
  unfoldable pub confidence_from_score : S → S → S → Confidence
  confidence_from_score high_score medium_score score =
      if A.le high_score score then high else if A.le medium_score score then medium else low

  not-le_of_le :
      (ordered : IsOrdered A) (a b c : S) → A.le a b ≡ true → A.le c b ≡ false → A.le c a ≡ false
  not-le_of_le ordered a b c h k = elim (Bool-cases (A.le c a)) [
    | inl e ↦ absurd (cc (ordered.le_trans c a b e h))
    | inr e ↦ e
  ]

  -- With the default smoothing constant 60, where 2/61 is below 0.05 and 1/61 below 0.02, and lists
  -- in which no chunk occurs twice: no chunk has confidence `high`, and one that a list does not
  -- have has confidence `low`.
  confidence-default_rrf_k :
      (ordered : IsOrdered A) (high_score medium_score : S) (vec kw : List (SearchCandidate S))
      (cid : String)
      → A.le high_score (A.add (A.recip 61) (A.recip 61)) ≡ false
      → A.le medium_score (A.recip 61) ≡ false
      → Distinct (ids vec)
      → Distinct (ids kw)
      → (confidence_from_score high_score medium_score (rrf_score A default_rrf_k vec kw cid)
          ≢ high)
        × ((has cid (ids kw) ≡ false ⊎ has cid (ids vec) ≡ false)
            → confidence_from_score high_score medium_score (rrf_score A default_rrf_k vec kw cid)
              ≡ low)
  unfolding confidence_from_score
  confidence-default_rrf_k ordered hi me vec kw cid below_high below_medium dv dk =
      let s = rrf_score A default_rrf_k vec kw cid in
      let (both, one) = rrf_score-le A ordered default_rrf_k vec kw cid dv dk in
      let not_high = not-le_of_le ordered s _ hi both below_high in
      (λ e. ground arith, λ h. rw (not_high, not-le_of_le ordered s _ me (one h) below_medium))
