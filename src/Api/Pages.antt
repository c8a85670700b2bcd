-- ===== src/Api/Pages.antt =====
-- backend/app/api/pagination.py and the query that the list endpoints of backend/app/api/v1 share
-- (here that of users.py; documents.py, groups.py and settings.py repeat it for their rows): rows in
-- the order of `(created_at, id)`, newest first, a page of at most `limit` of them, and the cursor
-- of the page after it. Parameters are base64 and JSON, which
-- make the text of a cursor (Cursors), and the order of the ids in the database. An id is of any type
-- `K` with such an order.
pub mod Cursors
pub mod Order
pub mod Follow
use know_gate.Prelude.{
  ℕ, zero, suc, String, Bool, true, not, ◌&&◌, ◌||◌, Option, none, some, List, [], ◌∷◌, ◌++◌, ltb,
  ◌==◌, if◌then◌else◌, str_eq, length, take,
}
use know_gate.Prelude.Sort.{sort_desc}
use know_gate.Db.Table.{select}
use know_gate.Api.Result.{Result, ok, api_error, or_raise, bad_request, ◌>>=◌}
pub use know_gate.Api.Pages.Cursors.{Cursor, Position, Codec, is_blank}
unfoldable pub use know_gate.Api.Pages.Cursors.{encode_cursor, decode_cursor}

-- `PageParams`, whose limit is from 1 to 100
pub record PageParams : Type 0 where
  pub cursor : Option Cursor
  pub limit : ℕ

-- `items` is the field `data`.
pub record Page (R : Type 0) : Type 0 where
  pub items : List R
  pub next_cursor : Option Cursor

module _ {R K : Type 0} (created_at : R → ℕ) (row_id : R → K) where
  abbrev pub position_of : R → Position K
  position_of r = (created_at r, row_id r)

module _ {R K : Type 0} (created_at : R → ℕ) (row_id : R → K) (id_le : K → K → Bool) where
  -- `(created_at < ts) | ((created_at == ts) & (id < uid))`
  abbrev pub after : Position K → R → Bool
  after c r = ltb (created_at r) c.0 || (created_at r == c.0 && not (id_le c.1 (row_id r)))

  -- `y` may follow `x` in `order_by(created_at.desc(), id.desc())`.
  abbrev pub at_or_after : R → R → Bool
  at_or_after y x = not (after (position_of created_at row_id y) x)

  -- The select before its cursor: in order, and with the filters of the endpoint.
  abbrev pub listed : (R → Bool) → List R → List R
  listed filters table = select filters (sort_desc at_or_after table)

  module _ (codec : Codec K) where
    -- `encode_cursor(rows[-1].created_at, rows[-1].id)`, if there are rows
    unfoldable pub last_cursor : List R → Option Cursor
    last_cursor [] = none
    last_cursor (x ∷ []) = some (encode_cursor codec (position_of created_at row_id x))
    last_cursor (x ∷ y ∷ xs) = last_cursor (y ∷ xs)

    -- `if params.cursor:` with the condition that it adds; an empty cursor is none
    unfoldable pub where_cursor : Option Cursor → Result (R → Bool)
    where_cursor none = ok (λ r. true)
    where_cursor (some cursor) =
        if is_blank cursor
        then ok (λ r. true)
        else (or_raise (decode_cursor codec cursor) (api_error 400 bad_request) >>= λ c.
            ok (after c))

    -- From `has_more` on, of the rows that `limit(params.limit + 1)` gave.
    unfoldable pub page_of : ℕ → List R → Page R
    page_of limit rows = record {
      items = take limit rows;
      next_cursor = if ltb limit (length rows) then last_cursor (take limit rows) else none;
    }

    unfoldable pub list_page : (R → Bool) → List R → PageParams → Result (Page R)
    list_page filters table params = where_cursor params.cursor >>= λ within.
        ok (page_of params.limit (take (suc params.limit) (select within (listed filters table))))

    -- A client that asks for the first page and then for each next one, at most `fuel` pages.
    unfoldable pub follow_rest :
        (Option Cursor → Result (List R)) → List R → Option Cursor → Result (List R)
    follow_rest continue_at items none = ok items
    follow_rest continue_at items (some cursor) =
        continue_at (some cursor) >>= λ rest. ok (items ++ rest)

    unfoldable pub follow : (R → Bool) → List R → ℕ → ℕ → Option Cursor → Result (List R)
    follow filters table limit zero cursor = ok []
    follow filters table limit (suc fuel) cursor =
        list_page filters table (record { cursor = cursor; limit = limit }) >>= λ page.
        follow_rest (λ next. follow filters table limit fuel next) page.items page.next_cursor
