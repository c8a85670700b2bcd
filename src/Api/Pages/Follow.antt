-- ===== src/Api/Pages/Follow.antt =====
-- Following the cursors of a list endpoint from its first page.
use know_gate.Prelude.{
  ◌≡◌, refl, sym, ap, ◌∙◌, ℕ, zero, suc, ◌<◌, ◌≤◌, Bool, true, false, Option, none, some, List, [],
  ◌∷◌, ◌++◌, ltb, lt→ltb, length, take, drop, length-take, arith, Bool-cases, inl, inr,
  append_assoc, ltb→lt, subst,
}
use know_gate.Prelude.Order.{IsOrder}
use know_gate.Db.Table.{select}
use know_gate.Api.Result.{ok, or_raise, ◌>>=◌}
use know_gate.Api.Pages.{
  Position, Codec, encode_cursor, position_of, after, listed, Cursor, last_cursor, where_cursor,
  page_of, list_page, follow, follow_rest,
}
use know_gate.Api.Pages.Cursors.{IsCodec, encode_cursor_not_empty, decode_cursor-encode_cursor}
use know_gate.Api.Pages.Order.{Strict, DistinctIds, listed-Strict, select-after}

ltb-false : (m n : ℕ) → n ≤ m → ltb m n ≡ false
ltb-false m n h = ground arith

ltb_le : (m n : ℕ) → ltb m n ≡ false → n ≤ m
ltb_le m n h = ground arith

module _ {R : Type 0} where
  take-take-suc : (n : ℕ) (xs : List R) → take n (take (suc n) xs) ≡ take n xs
  take-take-suc zero xs = refl
  take-take-suc (suc n) [] = refl
  take-take-suc (suc n) (x ∷ xs) = ap (λ rest. x ∷ rest) (take-take-suc n xs)

  take-drop : (n : ℕ) (xs : List R) → take n xs ++ drop n xs ≡ xs
  take-drop zero xs = refl
  take-drop (suc n) [] = refl
  take-drop (suc n) (x ∷ xs) = ap (λ rest. x ∷ rest) (take-drop n xs)

  take_all : (n : ℕ) (xs : List R) → length xs ≤ n → take n xs ≡ xs
  take_all zero [] h = refl
  take_all zero (x ∷ xs) h = let no : ⊥ = omega (arith, h) in elim no [ ]
  take_all (suc n) [] h = refl
  take_all (suc n) (x ∷ xs) h = ap (λ rest. x ∷ rest) (take_all n xs (omega (arith, h)))

  length-drop-suc : (n : ℕ) (xs : List R) → n < length xs → length (drop (suc n) xs) < length xs
  length-drop-suc n [] h = omega (arith, h)
  length-drop-suc zero (x ∷ xs) h = omega arith
  length-drop-suc (suc n) (x ∷ xs) h = omega (arith, length-drop-suc n xs (omega (arith, h)))

  select-true : (xs : List R) → select (λ x. true) xs ≡ xs
  unfolding select
  select-true [] = refl
  select-true (x ∷ xs) = ap (λ rest. x ∷ rest) (select-true xs)

  take-suc_more : (k : ℕ) (xs : List R) → k < length xs → ltb k (length (take (suc k) xs)) ≡ true
  take-suc_more k xs h =
      lt→ltb k (length (take (suc k) xs)) (omega (arith, h, length-take (suc k) xs))

  -- A full page has a last row.
  last_row :
      (k : ℕ) (xs : List R)
      → k < length xs
      → (before : List R) × (x : R) × (take (suc k) xs ≡ before ++ x ∷ [])
  last_row k [] h = let no : ⊥ = omega (arith, h) in elim no [ ]
  last_row zero (x ∷ xs) h = ([], x, refl)
  last_row (suc k) (x ∷ xs) h =
      let found : (before : List R) × (y : R) × (take (suc k) xs ≡ before ++ y ∷ []) =
        last_row k xs (omega (arith, h)) in
      (x ∷ found.0, found.1, ap (λ rest. x ∷ rest) found.2)

module _ {R : Type 0} where
  after_page :
      (k : ℕ) (read left : List R) → read ++ left ≡ (read ++ take (suc k) left) ++ drop (suc k) left
  after_page k read left =
      ap (λ rows. read ++ rows) (sym (take-drop (suc k) left))
      ∙ sym (append_assoc read (take (suc k) left) (drop (suc k) left))

  after_row :
      (k : ℕ) (read left before : List R) (x : R)
      → take (suc k) left ≡ before ++ x ∷ []
      → read ++ left ≡ (read ++ before) ++ x ∷ drop (suc k) left
  after_row k read left before x e =
      let left_over : List R = drop (suc k) left in
      after_page k read left
      ∙ (ap (λ page. (read ++ page) ++ left_over) e
          ∙ (ap (λ rows. rows ++ left_over) (sym (append_assoc read before (x ∷ [])))
              ∙ append_assoc (read ++ before) (x ∷ []) left_over))

module _ {R K : Type 0} (created_at : R → ℕ) (row_id : R → K) (id_le : K → K → Bool)
    (codec : Codec K) where
  last_cursor-append :
      (before : List R) (x : R)
      → last_cursor created_at row_id id_le codec (before ++ x ∷ [])
        ≡ some (encode_cursor codec (position_of created_at row_id x))
  unfolding last_cursor
  last_cursor-append [] x = refl
  last_cursor-append (a ∷ []) x = refl
  last_cursor-append (a ∷ b ∷ before) x = last_cursor-append (b ∷ before) x

  page_of-last :
      (k : ℕ) (rows : List R)
      → length rows ≤ suc k
      → page_of created_at row_id id_le codec (suc k) (take (suc (suc k)) rows)
        ≡ record { items = rows; next_cursor = none }
  unfolding page_of
  page_of-last k rows h =
      let small : ltb (suc k) (length rows) ≡ false = ltb-false (suc k) (length rows) h in
      rw
        (
          take-take-suc (suc k) rows,
          take_all (suc (suc k)) rows (omega (arith, h)),
          take_all (suc k) rows h,
          small,
        )
        refl

  page_of-more :
      (k : ℕ) (rows before : List R) (x : R)
      → suc k < length rows
      → take (suc k) rows ≡ before ++ x ∷ []
      → page_of created_at row_id id_le codec (suc k) (take (suc (suc k)) rows) ≡ record {
        items = take (suc k) rows;
        next_cursor = some (encode_cursor codec (position_of created_at row_id x));
      }
  unfolding page_of
  page_of-more k rows before x h e =
      rw (take-take-suc (suc k) rows, take-suc_more (suc k) rows h, e, last_cursor-append before x)
        refl

  module _ (is_codec : IsCodec codec) where
    where_cursor-encode :
        (p : Position K)
        → where_cursor created_at row_id id_le codec (some (encode_cursor codec p))
          ≡ ok (after created_at row_id id_le p)
    unfolding where_cursor or_raise ◌>>=◌
    where_cursor-encode p =
        rw (encode_cursor_not_empty codec is_codec p, decode_cursor-encode_cursor codec is_codec p)
          refl

    module _ (filters : R → Bool) (table : List R) (k : ℕ)
        (strict : Strict created_at row_id id_le (listed created_at row_id id_le filters table))
        (order : IsOrder id_le) where
      selected :
          (read : List R) (x : R) (left : List R)
          → listed created_at row_id id_le filters table ≡ read ++ x ∷ left
          → select
              (after created_at row_id id_le (position_of created_at row_id x))
              (listed created_at row_id id_le filters table)
            ≡ left
      selected read x left e = rw e (
          select-after created_at row_id id_le order read x left
            (subst (λ rows. Strict created_at row_id id_le rows) e strict))

      -- From a cursor whose condition selects the rows that are left, they are what follows.
      follow-from :
          (fuel : ℕ) (read left : List R) (cursor : Option Cursor) (within : R → Bool)
          → where_cursor created_at row_id id_le codec cursor ≡ ok within
          → select within (listed created_at row_id id_le filters table) ≡ left
          → listed created_at row_id id_le filters table ≡ read ++ left
          → length left < fuel
          → follow created_at row_id id_le codec filters table (suc k) fuel cursor ≡ ok left
      unfolding follow follow_rest list_page ◌>>=◌
      follow-from zero read left cursor within w s l h =
          let no : ⊥ = omega (arith, h) in elim no [ ]
      follow-from (suc fuel) read left cursor within w s l h =
          elim (Bool-cases (ltb (suc k) (length left))) [
            | inl more ↦
                let long : suc k < length left = ltb→lt (suc k) (length left) more in
                let row : (before : List R) × (x : R) × (take (suc k) left ≡ before ++ x ∷ []) =
                  last_row k left (omega (arith, long)) in
                let at : listed created_at row_id id_le filters table
                    ≡ (read ++ row.0) ++ row.1 ∷ drop (suc k) left =
                  l ∙ after_row k read left row.0 row.1 row.2 in
                let rest : follow created_at row_id id_le codec filters table (suc k) fuel
                      (some (encode_cursor codec (position_of created_at row_id row.1)))
                    ≡ ok (drop (suc k) left) =
                  follow-from fuel (read ++ take (suc k) left) (drop (suc k) left)
                    (some (encode_cursor codec (position_of created_at row_id row.1)))
                    (after created_at row_id id_le (position_of created_at row_id row.1))
                    (where_cursor-encode (position_of created_at row_id row.1))
                    (selected (read ++ row.0) row.1 (drop (suc k) left) at)
                    (l ∙ after_page k read left)
                    (omega (arith, h, length-drop-suc k left (omega (arith, long)))) in
                rw (w, s, page_of-more k left row.0 row.1 long row.2, rest)
                  (ap (λ rows. ok rows) (take-drop (suc k) left))
            | inr last ↦
                let short : length left ≤ suc k = ltb_le (suc k) (length left) last in
                rw (w, s, page_of-last k left short) refl
          ]

      follow-first :
          (fuel : ℕ)
          → length (listed created_at row_id id_le filters table) < fuel
          → follow created_at row_id id_le codec filters table (suc k) fuel none
            ≡ ok (listed created_at row_id id_le filters table)
      unfolding where_cursor
      follow-first fuel h =
          let rows : List R = listed created_at row_id id_le filters table in
          follow-from fuel [] rows none (λ r. true) refl (select-true rows) refl h

    -- The client asks for the first page and then, as long as an answer has a cursor, for the page
    -- of that cursor. If the limit is at least 1, the ids of the table are distinct, ids are
    -- ordered, base64 and JSON read back what they wrote, and the table does not change meanwhile, then it
    -- is done after at most one request more than there are rows. It has then got every row that
    -- passes the filters of the endpoint, once, and each before all that are older, or as old with
    -- a smaller id.
    pub follow-listed :
        (filters : R → Bool) (table : List R) (limit fuel : ℕ)
        → IsOrder id_le
        → DistinctIds row_id table
        → 1 ≤ limit
        → length (listed created_at row_id id_le filters table) < fuel
        → (follow created_at row_id id_le codec filters table limit fuel none
            ≡ ok (listed created_at row_id id_le filters table))
          × Strict created_at row_id id_le (listed created_at row_id id_le filters table)
    follow-listed filters table zero fuel order distinct positive enough =
        let no : ⊥ = omega (arith, positive) in elim no [ ]
    follow-listed filters table (suc k) fuel order distinct positive enough =
        let strict : Strict created_at row_id id_le (listed created_at row_id id_le filters table) =
          listed-Strict created_at row_id id_le order filters table distinct in
        (follow-first filters table k strict order fuel enough, strict)
