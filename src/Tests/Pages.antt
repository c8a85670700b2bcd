-- ===== src/Tests/Pages.antt =====
-- Runs of the list endpoints of backend/app/api/v1.
use mathlib.Core.Path.{ap₂}
use know_gate.Prelude.{
  ◌+◌, ◌-◌, ℕ, ◌≡◌, ◌<◌, refl, String, true, Option, none, some, List, [], ◌∷◌, arith, leb, length,
  subst, sym, All,
}
use know_gate.Prelude.Order.{IsOrder}
use know_gate.Prelude.Sort.{sort_desc, insert_desc}
use know_gate.Db.Table.{select}
use know_gate.Api.Result.{ok, ◌>>=◌}
use know_gate.Api.Pages.{Codec, Position, Page, listed, follow, where_cursor, page_of, last_cursor}
use know_gate.Api.Documents.Access.{Shares}
use know_gate.Api.Documents.Listing.{
  DocumentRow, document_id, list_documents, list_of_groups, join_groups, copies, unique_from,
}
use know_gate.Api.Documents.Listing.Readers.{list_documents-Shares}
use know_gate.Db.{Database, Document, DocumentStatus}
use know_gate.Prelude.Dict.{has}
use know_gate.Tests.Api.{tables, handbook, as_ben}
use know_gate.Api.Pages.Order.{DistinctIds, Strict}
use know_gate.Api.Pages.Cursors.{IsCodec, equals_sign}
use know_gate.Api.Pages.Follow.{follow-listed}

-- Rows that are their time and their id, here a number.
abbrev rows : List (ℕ × ℕ)
rows = (3, 1) ∷ (5, 2) ∷ (3, 4) ∷ (9, 0) ∷ []

abbrev newest_first : List (ℕ × ℕ)
newest_first = (9, 0) ∷ (5, 2) ∷ (3, 4) ∷ (3, 1) ∷ []

-- Bytes are a position, and a text has a code point above "=" for each of its numbers, and for a mark,
-- and one sign.
abbrev codec : Codec ℕ
codec = record {
  Bytes = Position ℕ;
  dumps = λ p. p;
  loads = λ p. some p;
  urlsafe_b64encode = λ p. (p.0 + 62) ∷ (p.1 + 62) ∷ 62 ∷ equals_sign ∷ [];
  urlsafe_b64decode = read;
}
  where
    read : List ℕ → Option (Position ℕ)
    read (a ∷ b ∷ c ∷ d ∷ []) = some (a - 62, b - 62)
    read _ = none

codec-IsCodec : IsCodec codec
codec-IsCodec = record {
  loads_dumps = λ p. refl;
  b64decode-b64encode = λ raw. ap₂ (λ (a : ℕ) (b : ℕ). some (a, b)) (omega arith) (omega arith);
  body = λ raw. (raw.0 + 62) ∷ (raw.1 + 62) ∷ 62 ∷ [];
  padding = λ raw. 1;
  b64encode_parts = λ raw. refl;
  no_sign = λ raw. (ground arith, (ground arith, (refl, tt)));
  quads = λ raw. refl;
  few = λ raw. omega arith;
  not_empty = λ p. refl;
}

leb-IsOrder : IsOrder leb
leb-IsOrder = record {
  le_trans = λ a b c h k. ground arith;
  le_total = λ a b. ground arith;
  le_antisym = λ a b h k. ground arith;
}

listed_rows : listed (λ r. r.0) (λ r. r.1) leb (λ r. true) rows ≡ newest_first
unfolding select sort_desc insert_desc
listed_rows = refl

follow-listed_example :
    (follow (λ r. r.0) (λ r. r.1) leb codec (λ r. true) rows 2 5 none
      ≡ ok (listed (λ r. r.0) (λ r. r.1) leb (λ r. true) rows))
    × Strict (λ r. r.0) (λ r. r.1) leb (listed (λ r. r.0) (λ r. r.1) leb (λ r. true) rows)
follow-listed_example =
    follow-listed (λ r. r.0) (λ r. r.1) leb codec codec-IsCodec (λ r. true) rows 2 5 leb-IsOrder
      rows-DistinctIds (omega arith) (subst (λ xs. length xs < 5) (sym listed_rows) (omega arith))
  where
    rows-DistinctIds : DistinctIds (λ r. r.1) rows
    rows-DistinctIds = ground arith

abbrev manual : Document
manual = record {
  id = "d2";
  source = "google_drive";
  source_id = "f2";
  title = "Manual";
  owner = none;
  mime_type = none;
  size_bytes = none;
  status = DocumentStatus.active;
  object_key = none;
  indexed_at = none;
  error_message = none;
}

-- A document in both groups of the caller, and an older one in one of them.
abbrev shared_twice : Database
shared_twice = record {
  users = tables.users;
  roles = tables.roles;
  user_roles = tables.user_roles;
  access_groups = tables.access_groups;
  user_groups = ("u2", "g1") ∷ ("u2", "g2") ∷ [];
  documents = handbook ∷ manual ∷ [];
  document_groups = ("d1", "g1") ∷ ("d1", "g2") ∷ ("d2", "g1") ∷ [];
}

abbrev document_rows : List DocumentRow
document_rows =
    record { document = handbook; created_at = 8 }
    ∷ record { document = manual; created_at = 5 }
    ∷ []

abbrev text_codec : Codec String
text_codec = record {
  Bytes = Position String;
  dumps = λ p. p;
  loads = λ p. some p;
  urlsafe_b64encode = λ p. [];
  urlsafe_b64decode = λ text. none;
}

-- A page of one document has no cursor, though there is another document.
abbrev only_page : Page DocumentRow
only_page = record {
  items = record { document = handbook; created_at = 8 } ∷ [];
  next_cursor = none;
}

list_documents-short :
    list_documents
      (λ a b. true)
      text_codec
      as_ben
      shared_twice
      (λ r. true)
      document_rows
      (record { cursor = none; limit = 1 })
    ≡ ok only_page
unfolding list_documents list_of_groups where_cursor page_of last_cursor join_groups copies
    unique_from select sort_desc insert_desc has ◌>>=◌
list_documents-short = refl

list_documents-Shares_example : All (λ r. Shares shared_twice "u2" (document_id r)) only_page.items
list_documents-Shares_example =
    list_documents-Shares (λ a b. true) text_codec as_ben shared_twice (λ r. true) document_rows
      (record { cursor = none; limit = 1 }) only_page refl list_documents-short
