-- ===== src/Api/Pages/Order.antt =====
-- The order of the rows of a list endpoint, and the rows after a cursor.
use know_gate.Prelude.{
  ◌≡◌, refl, sym, ℕ, Bool, true, false, List, [], ◌∷◌, ◌++◌, ◌⊎◌, inl, inr, ◌≢◌, All, arith,
  Bool-cases, All-zip,
}
use know_gate.Prelude.Order.{IsOrder}
use know_gate.Prelude.Sort.{
  sort_desc, insert_desc, Descending, insert_desc-All, sort_desc-All, sort_desc-Descending,
}
use know_gate.Db.Table.{select}
use know_gate.Api.Pages.{after, position_of, at_or_after, listed}

module _ {R K : Type 0} (row_id : R → K) where
  -- No two rows have one id, the primary key of their table.
  abbrev pub DistinctIds : List R → Type 0
  DistinctIds [] = Unit
  DistinctIds (x ∷ xs) = All (λ y. row_id y ≢ row_id x) xs × DistinctIds xs

module _ {R K : Type 0} (row_id : R → K) (le : R → R → Bool) where
  insert_desc-DistinctIds :
      (x : R) (ys : List R)
      → All (λ y. row_id y ≢ row_id x) ys
      → DistinctIds row_id ys
      → DistinctIds row_id (insert_desc le x ys)
  unfolding insert_desc
  insert_desc-DistinctIds x [] h d = (tt, tt)
  insert_desc-DistinctIds x (y ∷ ys) h d = elim (Bool-cases (le y x)) [
    | inl e ↦ rw e (h, d)
    | inr e ↦ rw e (
      insert_desc-All le (λ z. row_id z ≢ row_id y) x ys (λ same. h.0 (sym same)) d.0,
      insert_desc-DistinctIds x ys h.1 d.1,
    )
  ]

  sort_desc-DistinctIds :
      (xs : List R) → DistinctIds row_id xs → DistinctIds row_id (sort_desc le xs)
  unfolding sort_desc
  sort_desc-DistinctIds [] d = tt
  sort_desc-DistinctIds (x ∷ xs) d =
      insert_desc-DistinctIds x (sort_desc le xs)
        (sort_desc-All le (λ y. row_id y ≢ row_id x) xs d.0) (sort_desc-DistinctIds xs d.1)

module _ {R : Type 0} (p : R → Bool) where
  select-All : (P : R → Type 0) (xs : List R) → All P xs → All P (select p xs)
  unfolding select
  select-All P [] h = tt
  select-All P (x ∷ xs) h = elim (Bool-cases (p x)) [
    | inl e ↦ rw e (h.0, select-All P xs h.1)
    | inr e ↦ rw e (select-All P xs h.1)
  ]

  select-all : (xs : List R) → All (λ x. p x ≡ true) xs → select p xs ≡ xs
  unfolding select
  select-all [] h = refl
  select-all (x ∷ xs) h = rw (h.0, select-all xs h.1) refl

module _ {R K : Type 0} (created_at : R → ℕ) (row_id : R → K) (id_le : K → K → Bool) where
  -- Each row is strictly before all that follow it.
  abbrev pub Strict : List R → Type 0
  Strict [] = Unit
  Strict (x ∷ xs) =
      All (λ y. after created_at row_id id_le (position_of created_at row_id x) y ≡ true) xs
      × Strict xs

  module _ (order : IsOrder id_le) where
    at_or_after_trans :
        (a b c : R)
        → at_or_after created_at row_id id_le a b ≡ true
        → at_or_after created_at row_id id_le b c ≡ true
        → at_or_after created_at row_id id_le a c ≡ true
    at_or_after_trans a b c h k = ground (arith, order.le_trans (row_id a) (row_id b) (row_id c))

    at_or_after_total :
        (a b : R)
        → (at_or_after created_at row_id id_le a b ≡ true)
          ⊎ (at_or_after created_at row_id id_le b a ≡ true)
    at_or_after_total a b = ground (arith, order.le_total (row_id a) (row_id b))

    at_or_after-after :
        (x y : R)
        → at_or_after created_at row_id id_le y x ≡ true
        → row_id y ≢ row_id x
        → after created_at row_id id_le (position_of created_at row_id x) y ≡ true
    at_or_after-after x y h apart = ground (arith, order.le_antisym (row_id y) (row_id x))

    after_asym :
        (x y : R)
        → after created_at row_id id_le (position_of created_at row_id x) y ≡ true
        → after created_at row_id id_le (position_of created_at row_id y) x ≡ false
    after_asym x y h = ground (arith, order.le_total (row_id x) (row_id y))

    after_irrefl :
        (x : R) → after created_at row_id id_le (position_of created_at row_id x) x ≡ false
    after_irrefl x = ground (arith, order.le_total (row_id x) (row_id x))

    Strict-of-Descending :
        (xs : List R)
        → Descending (at_or_after created_at row_id id_le) xs
        → DistinctIds row_id xs
        → Strict xs
    Strict-of-Descending [] d k = tt
    Strict-of-Descending (x ∷ xs) d k = (
      All-zip (λ y h apart. at_or_after-after x y h apart) xs d.0 k.0,
      Strict-of-Descending xs d.1 k.1,
    )

    select-Strict : (p : R → Bool) (xs : List R) → Strict xs → Strict (select p xs)
    unfolding select
    select-Strict p [] s = tt
    select-Strict p (x ∷ xs) s = elim (Bool-cases (p x)) [
      | inl e ↦ rw e (
        select-All p (λ y. after created_at row_id id_le (position_of created_at row_id x) y ≡ true)
            xs s.0,
        select-Strict p xs s.1,
      )
      | inr e ↦ rw e (select-Strict p xs s.1)
    ]

    pub listed-Strict :
        (filters : R → Bool) (table : List R)
        → DistinctIds row_id table
        → Strict (listed created_at row_id id_le filters table)
    listed-Strict filters table d =
        let le : R → R → Bool = at_or_after created_at row_id id_le in
        select-Strict filters (sort_desc le table) (
          Strict-of-Descending (sort_desc le table)
            (sort_desc-Descending le (λ a b c h k. at_or_after_trans a b c h k) at_or_after_total
              table)
            (sort_desc-DistinctIds row_id le table d))

    All-at : (P : R → Type 0) (A : List R) (x : R) (B : List R) → All P (A ++ x ∷ B) → P x
    All-at P [] x B h = h.0
    All-at P (a ∷ A) x B h = All-at P A x B h.1

    -- The condition of the cursor of a row selects what follows the row.
    pub select-after :
        (A : List R) (x : R) (B : List R)
        → Strict (A ++ x ∷ B)
        → select (after created_at row_id id_le (position_of created_at row_id x)) (A ++ x ∷ B) ≡ B
    unfolding select
    select-after [] x B s =
        rw (after_irrefl x)
          (select-all (after created_at row_id id_le (position_of created_at row_id x)) B s.0)
    select-after (a ∷ A) x B s =
        rw
          (after_asym a x (
            All-at (λ y. after created_at row_id id_le (position_of created_at row_id a) y ≡ true) A
              x B s.0))
          (select-after A x B s.1)
