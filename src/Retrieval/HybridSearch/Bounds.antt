-- ===== src/Retrieval/HybridSearch/Bounds.antt =====
-- Bounds on the scores of Reciprocal Rank Fusion (backend/app/retrieval/hybrid_search.py) for lists
-- in which no chunk occurs twice.
use know_gate.Prelude.{
  ℕ, suc, ◌+◌, ◌≡◌, refl, String, true, false, inl, inr, List, [], ◌∷◌, arith, str_eq, eq_iff,
  Bool-cases, ◌⊎◌, subst,
}
use know_gate.Prelude.Dict.{has, Distinct}
use know_gate.Retrieval.Score.{Score, IsOrdered}
use know_gate.Retrieval.HybridSearch.{SearchCandidate}
use know_gate.Retrieval.HybridSearch.Merge.{rank_sum, rrf_score}
use know_gate.Retrieval.HybridSearch.Order.{ids}

module _ {S : Type 0} (A : Score S) where
  rank_sum-absent :
      (k : ℕ) (cid : String) (r : ℕ) (cs : List (SearchCandidate S)) (acc : S)
      → has cid (ids cs) ≡ false
      → rank_sum A k cid r cs acc ≡ acc
  unfolding rank_sum has
  rank_sum-absent k cid r [] acc h = refl
  rank_sum-absent k cid r (c ∷ cs) acc h = elim (Bool-cases (str_eq c.chunk_id cid)) [
    | inl here ↦ ground arith
    | inr there ↦ rw there (rank_sum-absent k cid (suc r) cs acc (rw there at h))
  ]

  module _ (ordered : IsOrdered A) where
    pub le_refl : (a : S) → A.le a a ≡ true
    le_refl a = elim (ordered.le_total a a) [ inl h ↦ h | inr h ↦ h ]

    le-add_right : (a : S) (n : ℕ) → A.le a (A.add a (A.recip n)) ≡ true
    le-add_right a n =
        subst (λ b. A.le b (A.add a (A.recip n)) ≡ true) (ordered.add-zero a)
          (ordered.add_mono a a A.zero_score (A.recip n) (le_refl a) (ordered.recip_nonneg n))

    -- A list without repetitions adds at most the reciprocal for the first rank.
    rank_sum-le :
        (k : ℕ) (cid : String) (r : ℕ) (cs : List (SearchCandidate S)) (acc : S)
        → Distinct (ids cs)
        → A.le (rank_sum A k cid r cs acc) (A.add acc (A.recip (k + r + 1))) ≡ true
    unfolding rank_sum
    rank_sum-le k cid r [] acc d = le-add_right acc (k + r + 1)
    rank_sum-le k cid r (c ∷ cs) acc d = elim (Bool-cases (str_eq c.chunk_id cid)) [
      | inl here ↦
          rw
            (
              here,
              rank_sum-absent k cid (suc r) cs (A.add acc (A.recip (k + r + 1)))
                  (rw ((eq_iff c.chunk_id cid).0 here) at d.0),
            )
            (le_refl (A.add acc (A.recip (k + r + 1))))
      | inr there ↦ rw there (
          ordered.le_trans _ _ _ (rank_sum-le k cid (suc r) cs acc d.1) (
            ordered.add_mono acc acc _ _ (le_refl acc)
              (ordered.recip_anti (k + r + 1) (k + suc r + 1) (omega arith) (omega arith))))
    ]

    first_rank-le :
        (k : ℕ) (cid : String) (cs : List (SearchCandidate S)) (acc : S)
        → Distinct (ids cs)
        → A.le (rank_sum A k cid 0 cs acc) (A.add acc (A.recip (k + 1))) ≡ true
    first_rank-le k cid cs acc d =
        let e : k + 0 + 1 ≡ k + 1 = omega arith in
        subst (λ n. A.le (rank_sum A k cid 0 cs acc) (A.add acc (A.recip n)) ≡ true) e
          (rank_sum-le k cid 0 cs acc d)

    -- One list alone adds at most one reciprocal to nothing.
    alone-le :
        (k : ℕ) (cid : String) (cs : List (SearchCandidate S))
        → Distinct (ids cs)
        → A.le (rank_sum A k cid 0 cs A.zero_score) (A.recip (k + 1)) ≡ true
    alone-le k cid cs d =
        subst (λ b. A.le (rank_sum A k cid 0 cs A.zero_score) b ≡ true)
          (ordered.zero-add (A.recip (k + 1))) (first_rank-le k cid cs A.zero_score d)

    -- If no chunk occurs twice in a list, no chunk scores more than 2 / (k + 1), and a chunk that
    -- one of the two lists does not have scores at most 1 / (k + 1).
    pub rrf_score-le :
        (k : ℕ) (vec kw : List (SearchCandidate S)) (cid : String)
        → Distinct (ids vec)
        → Distinct (ids kw)
        → (A.le (rrf_score A k vec kw cid) (A.add (A.recip (k + 1)) (A.recip (k + 1))) ≡ true)
          × ((has cid (ids kw) ≡ false ⊎ has cid (ids vec) ≡ false)
              → A.le (rrf_score A k vec kw cid) (A.recip (k + 1)) ≡ true)
    unfolding rrf_score
    rrf_score-le k vec kw cid dv dk =
        let from_vec = rank_sum A k cid 0 vec A.zero_score in
        let one = A.recip (k + 1) in
        (
          ordered.le_trans _ _ _ (first_rank-le k cid kw from_vec dk)
              (ordered.add_mono from_vec one one one (alone-le k cid vec dv) (le_refl one)),
          elim [
            | inl h ↦ rw (rank_sum-absent k cid 0 kw from_vec h) (alone-le k cid vec dv)
            | inr h ↦ rw (rank_sum-absent k cid 0 vec A.zero_score h) (alone-le k cid kw dk)
          ],
        )
