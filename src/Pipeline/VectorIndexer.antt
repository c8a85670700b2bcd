-- ===== src/Pipeline/VectorIndexer.antt =====
-- backend/app/vector/indexer.py: the writes to the collection of Qdrant, which is an interface, in
-- batches.
use mathlib.Core.Path.{ap₂}
use know_gate.Prelude.{
  ℕ, zero, suc, ◌+◌, ◌*◌, ◌-◌, ◌≤◌, ◌<◌, ◌≡◌, refl, sym, ap, ◌∙◌, List, [], ◌∷◌, ◌++◌, take, drop,
  length, arith, length-take,
}

abbrev pub bulk_batch_size : ℕ
bulk_batch_size = 500

-- One call of `upsert` writes its points one after the other.
pub record Collection (P : Type 0) : Type 1 where
  pub Store : Type 0
  pub upsert : List P → Store → Store
  pub upsert-nil : (s : Store) → upsert [] s ≡ s
  pub upsert-append : (ps qs : List P) (s : Store) → upsert (ps ++ qs) s ≡ upsert qs (upsert ps s)

module _ {A : Type 0} where
  pub take-drop : (n : ℕ) (xs : List A) → take n xs ++ drop n xs ≡ xs
  take-drop zero xs = refl
  take-drop (suc n) [] = refl
  take-drop (suc n) (x ∷ xs) = ap (λ ys. x ∷ ys) (take-drop n xs)

  pub length-drop : (n : ℕ) (xs : List A) → length (drop n xs) ≡ length xs - n
  length-drop zero xs = omega arith
  length-drop (suc n) [] = omega arith
  length-drop (suc n) (x ∷ xs) = omega (arith, length-drop n xs)

module _ {A : Type 0} where
  take_nil : (n : ℕ) (xs : List A) → xs ≡ [] → take n xs ≡ []
  take_nil n [] e = take_of_nothing n
    where
      take_of_nothing : (n : ℕ) → take {A = A} n [] ≡ []
      take_of_nothing zero = refl
      take_of_nothing (suc n) = refl
  take_nil n (x ∷ xs) e = cc e

  take-sum : (k m n : ℕ) (xs : List A) → k ≡ m + n → take k xs ≡ take m xs ++ take n (drop m xs)
  take-sum k zero n xs e = ap (λ j. take j xs) (omega (arith, e))
  take-sum zero (suc m) n xs e = absurd (omega (arith, e))
  take-sum (suc k) (suc m) n [] e = sym (take_nil n [] refl)
  take-sum (suc k) (suc m) n (x ∷ xs) e = ap (λ ys. x ∷ ys) (take-sum k m n xs (omega (arith, e)))

module _ {P : Type 0} (qdrant : Collection P) where
  open qdrant use {Store, upsert}

  -- The loop over `range(0, len(points), batch_size)`: each round writes the next batch. There are at
  -- most as many rounds as points.
  unfoldable pub bulk_rounds : ℕ → ℕ → List P → Store → ℕ × Store
  bulk_rounds zero batch_size points s = (0, s)
  bulk_rounds (suc rounds) batch_size [] s = (0, s)
  bulk_rounds (suc rounds) batch_size (p ∷ points) s =
      let batch = take batch_size (p ∷ points) in
      let (total, s') =
        bulk_rounds rounds batch_size (drop batch_size (p ∷ points)) (upsert batch s) in
      (length batch + total, s')

  unfoldable pub upsert_chunks_bulk : ℕ → List P → Store → ℕ × Store
  unfolding bulk_rounds
  upsert_chunks_bulk batch_size points s = bulk_rounds (length points) batch_size points s

  rounds-eq :
      (rounds batch_size : ℕ) (points : List P) (s : Store)
      → 0 < batch_size
      → length points ≤ rounds
      → bulk_rounds rounds batch_size points s ≡ (length points, upsert points s)
  unfolding bulk_rounds
  rounds-eq zero b [] s pos enough = ap (λ t. (0, t)) (sym (qdrant.upsert-nil s))
  rounds-eq zero b (p ∷ points) s pos enough = absurd (omega (arith, enough))
  rounds-eq (suc rounds) b [] s pos enough = ap (λ t. (0, t)) (sym (qdrant.upsert-nil s))
  rounds-eq (suc rounds) b (p ∷ points) s pos enough =
      let all = p ∷ points in
      rw
        (rounds-eq rounds b (drop b all) (upsert (take b all) s) pos
          (omega (arith, length-drop b all, enough, pos)))
        (ap₂ (λ n t. (n, t)) (omega (arith, length-drop b all, length-take b all))
          (sym (qdrant.upsert-append (take b all) (drop b all) s)
            ∙ ap (λ ps. upsert ps s) (take-drop b all)))

  -- Writing in batches of any size but 0 ends, writes what one call with all points writes, and returns
  -- the number of the points.
  pub upsert_chunks_bulk-upsert :
      (batch_size : ℕ) (points : List P) (s : Store)
      → 0 < batch_size
      → upsert_chunks_bulk batch_size points s ≡ (length points, upsert points s)
  unfolding upsert_chunks_bulk
  upsert_chunks_bulk-upsert batch_size points s pos =
      rounds-eq (length points) batch_size points s pos (omega arith)

  -- The first rounds write the points of the first batches.
  pub bulk_rounds-take :
      (rounds batch_size : ℕ) (points : List P) (s : Store)
      → (bulk_rounds rounds batch_size points s).1 ≡ upsert (take (rounds * batch_size) points) s
  unfolding bulk_rounds
  bulk_rounds-take zero b points s =
      let none_yet : 0 * b ≡ 0 = omega arith in
      sym (qdrant.upsert-nil s) ∙ ap (λ n. upsert (take n points) s) (sym none_yet)
  bulk_rounds-take (suc rounds) b [] s =
      sym (qdrant.upsert-nil s) ∙ ap (λ ps. upsert ps s) (sym (take_nil (suc rounds * b) [] refl))
  bulk_rounds-take (suc rounds) b (p ∷ points) s =
      let all : List P = p ∷ points in
      let size : suc rounds * b ≡ b + rounds * b = grind arith in
      bulk_rounds-take rounds b (drop b all) (upsert (take b all) s)
      ∙ (sym (qdrant.upsert-append (take b all) (take (rounds * b) (drop b all)) s)
          ∙ ap (λ ps. upsert ps s) (sym (take-sum (suc rounds * b) b (rounds * b) all size)))
