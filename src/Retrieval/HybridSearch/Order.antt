-- ===== src/Retrieval/HybridSearch/Order.antt =====
-- The order of the merged list of `merge_rrf` (backend/app/retrieval/hybrid_search.py): what sorting
-- and cutting keep of it.
use know_gate.Prelude.{
  ℕ, zero, suc, ◌≡◌, refl, ◌∙◌, ap, String, Bool, true, false, ◌||◌, ◌⊎◌, inl, inr, List, [], ◌∷◌,
  map, arith, str_eq, eq_iff, All, All-take, All-drop, All-zip, All-map, Bool-cases, take, drop,
}
use know_gate.Prelude.Dict.{has, Distinct}
use know_gate.Prelude.Sort.{insert_desc, sort_desc, Descending}
use know_gate.Retrieval.HybridSearch.{SearchCandidate}

module _ {S : Type 0} where
  abbrev pub ids : List (SearchCandidate S) → List String
  ids = map (λ c. c.chunk_id)

  pub has-ids-take :
      (cid : String) (n : ℕ) (xs : List (SearchCandidate S))
      → has cid (ids xs) ≡ false
      → has cid (ids (take n xs)) ≡ false
  unfolding has
  has-ids-take cid zero xs h = refl
  has-ids-take cid (suc n) [] h = refl
  has-ids-take cid (suc n) (x ∷ xs) h = ground (arith, has-ids-take cid n xs)

  pub take-Distinct :
      (n : ℕ) (xs : List (SearchCandidate S)) → Distinct (ids xs) → Distinct (ids (take n xs))
  take-Distinct zero xs d = tt
  take-Distinct (suc n) [] d = tt
  take-Distinct (suc n) (x ∷ xs) d = (has-ids-take x.chunk_id n xs d.0, take-Distinct n xs d.1)

  pub has-take-or-drop :
      (cid : String) (n : ℕ) (xs : List (SearchCandidate S))
      → has cid (ids xs) ≡ true
      → (has cid (ids (take n xs)) ≡ true) ⊎ (has cid (ids (drop n xs)) ≡ true)
  unfolding has
  has-take-or-drop cid zero xs h = inr h
  has-take-or-drop cid (suc n) [] h = inl h
  has-take-or-drop cid (suc n) (x ∷ xs) h = ground (arith, has-take-or-drop cid n xs)

  -- A chunk that is listed, with what holds along the list.
  pub All-at {κ} :
      (P : SearchCandidate S → Type κ) (cid : String) (xs : List (SearchCandidate S))
      → All P xs
      → has cid (ids xs) ≡ true
      → (c : SearchCandidate S) × P c × (c.chunk_id ≡ cid)
  unfolding has
  All-at P cid [] h m = cc
  All-at P cid (x ∷ xs) h m = elim (Bool-cases (str_eq x.chunk_id cid)) [
    | inl here ↦ (x, h.0, (eq_iff x.chunk_id cid).0 here)
    | inr there ↦ All-at P cid xs h.1 (rw there at m)
  ]

  module _ (le : SearchCandidate S → SearchCandidate S → Bool) where
    has-insert_desc :
        (cid : String) (x : SearchCandidate S) (ys : List (SearchCandidate S))
        → has cid (ids (insert_desc le x ys)) ≡ has cid (ids (x ∷ ys))
    unfolding has insert_desc
    has-insert_desc cid x [] = refl
    has-insert_desc cid x (y ∷ ys) = ground (arith, has-insert_desc cid x ys)

    pub has-sort_desc :
        (cid : String) (xs : List (SearchCandidate S))
        → has cid (ids (sort_desc le xs)) ≡ has cid (ids xs)
    unfolding has sort_desc
    has-sort_desc cid [] = refl
    has-sort_desc cid (x ∷ xs) =
        has-insert_desc cid x (sort_desc le xs)
        ∙ ap (λ b. str_eq x.chunk_id cid || b) (has-sort_desc cid xs)

    insert_desc-Distinct :
        (x : SearchCandidate S) (ys : List (SearchCandidate S))
        → Distinct (ids (x ∷ ys))
        → Distinct (ids (insert_desc le x ys))
    unfolding has insert_desc
    insert_desc-Distinct x [] d = d
    insert_desc-Distinct x (y ∷ ys) d = ground (
      arith,
      eq_iff x.chunk_id y.chunk_id,
      eq_iff y.chunk_id x.chunk_id,
      has-insert_desc y.chunk_id x ys,
      insert_desc-Distinct x ys,
    )

    pub sort_desc-Distinct :
        (xs : List (SearchCandidate S)) → Distinct (ids xs) → Distinct (ids (sort_desc le xs))
    unfolding sort_desc
    sort_desc-Distinct [] d = tt
    sort_desc-Distinct (x ∷ xs) d =
        insert_desc-Distinct x (sort_desc le xs)
          (has-sort_desc x.chunk_id xs ∙ d.0, sort_desc-Distinct xs d.1)

    -- All that a cut drops is at most all that it keeps.
    pub Descending-cut :
        (n : ℕ) (xs : List (SearchCandidate S))
        → Descending le xs
        → All (λ d. All (λ c. le d c ≡ true) (take n xs)) (drop n xs)
    Descending-cut zero xs d = All-map (λ x _. tt) xs (all_tt xs)
      where
        all_tt : (ys : List (SearchCandidate S)) → All (λ y. Unit {0}) ys
        all_tt [] = tt
        all_tt (y ∷ ys) = (tt, all_tt ys)
    Descending-cut (suc n) [] d = tt
    Descending-cut (suc n) (x ∷ xs) d =
        All-zip (λ y h k. (h, k)) (drop n xs) (All-drop (λ y. le y x ≡ true) n xs d.0)
          (Descending-cut n xs d.1)

    pub Descending-take :
        (n : ℕ) (xs : List (SearchCandidate S)) → Descending le xs → Descending le (take n xs)
    Descending-take zero xs d = tt
    Descending-take (suc n) [] d = tt
    Descending-take (suc n) (x ∷ xs) d =
        (All-take (λ y. le y x ≡ true) n xs d.0, Descending-take n xs d.1)
