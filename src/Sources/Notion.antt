-- ===== src/Sources/Notion.antt =====
-- backend/app/sources/notion.py: the connector of Notion, over the answers of its API. The JSON of an
-- answer is a record of the fields that the code reads. An answer may depend on the number of the
-- call; waiting for the bucket (Sources/TokenBucket) does not change it. A loop that follows a cursor
-- takes as fuel the pages that it may ask for, and is `none` where that is not enough. `strip` is
-- Python's.
pub mod Markdown
pub mod Listing
pub mod Content
use Prim.Native.String.{◌++◌ as concat}
use know_gate.Prelude.{
  ℕ, zero, suc, String, Bool, true, false, not, ◌&&◌, Option, none, some, List, [], ◌∷◌, ◌++◌, map,
  str_eq, ◌==◌, leb, if◌then◌else◌,
}
use know_gate.Prelude.Order.{str_le}
use know_gate.Sources.Http.{Response, content_or}
use know_gate.Sources.Base.{Failure, auth, rate_limit, other, Outcome, returned, raised, SourceDoc}
pub use know_gate.Sources.Notion.Markdown.{RichText, or_empty, truthy, Block, newline}
unfoldable pub use know_gate.Sources.Notion.Markdown.{
  plain_text, block_lines, of_type, lines_of, join_lines,
}

-- `_handle`, which names the path in its errors; no content is `{}`.
unfoldable pub handle : {A : Type 0} → A → String → Response A → Outcome A
handle nothing path resp =
    if resp.status_code == 401
    then raised (auth path)
    else if resp.status_code == 429
    then raised (rate_limit path)
    else if leb 400 resp.status_code
    then raised (other path)
    else returned (content_or nothing resp.content)

-- A request raises what httpx raises.
unfoldable pub request : {A : Type 0} → A → String → Outcome (Response A) → Outcome A
unfolding handle
request nothing path (raised e) = raised e
request nothing path (returned resp) = handle nothing path resp

-- One page of a listing; what is missing is an empty list, False and None.
pub record Paged (A : Type 0) : Type 0 where
  pub results : List A
  pub has_more : Bool
  pub next_cursor : Option String

abbrev pub no_page : {A : Type 0} → Paged A
no_page = record { results = []; has_more = false; next_cursor = none }

pub record Property : Type 0 where
  pub type : Option String
  pub title : RichText

pub record NotionPage : Type 0 where
  pub object : Option String
  pub id : String
  pub properties : List Property
  pub last_edited_time : Option String

abbrev pub is_text : String → Option String → Bool
is_text s none = false
is_text s (some t) = str_eq t s

-- The title is that of the first property of this type.
unfoldable pub title_of : List Property → String
unfolding plain_text
title_of [] = ""
title_of (p ∷ properties) =
    if is_text "title" p.type then plain_text p.title else title_of properties

abbrev pub or_untitled : String → String
or_untitled title = if str_eq title "" then "(untitled)" else title

-- `_notion_page_to_source_doc`, without the url, the time and the parent
unfoldable pub notion_page_to_source_doc : NotionPage → SourceDoc
unfolding title_of
notion_page_to_source_doc page = record {
  id = page.id;
  title = or_untitled (title_of page.properties);
  mime_type = some "application/vnd.notion.page+markdown";
  size_bytes = none;
  is_deleted = false;
}

-- `rstrip("Z")`
unfoldable pub rstrip_z : String → String
rstrip_z String.[] = ""
rstrip_z (String.◌∷◌ c s) =
    let rest = rstrip_z s in
    if str_eq rest "" && str_eq (String.◌∷◌ c String.[]) "Z" then "" else String.◌∷◌ c rest

abbrev pub modified_of : NotionPage → String
modified_of page = concat (rstrip_z (or_empty page.last_edited_time)) "Z"

abbrev pub given_text : Option String → Bool
given_text none = false
given_text (some s) = truthy s

-- One turn of a loop over pages: an exception ends it, `has_more` decides whether it goes on.
unfoldable pub turn :
    {A B : Type 0}
    → Outcome (Paged A)
    → (Paged A → Option (Outcome B))
    → (Paged A → B)
    → Option (Outcome B)
turn (raised e) again found = some (raised e)
turn (returned answer) again found =
    if answer.has_more then again answer else some (returned (found answer))

-- The API of Notion.
pub record NotionApi : Type 0 where
  -- `POST /search` for pages, from a cursor
  pub search : ℕ → Option String → Outcome (Response (Paged NotionPage))
  -- `GET /pages/{id}`
  pub page : ℕ → String → Outcome (Response NotionPage)
  -- `GET /blocks/{id}/children`, from a cursor
  pub children : ℕ → String → Option String → Outcome (Response (Paged Block))

-- `if start_cursor:`
abbrev pub start_from : Option String → Option String
start_from none = none
start_from (some c) = if truthy c then some c else none

abbrev pub ask_search : NotionApi → ℕ → Option String → Outcome (Paged NotionPage)
ask_search api k start = request no_page "/search" (api.search k (start_from start))

abbrev pub ask_children : NotionApi → String → ℕ → Option String → Outcome (Paged Block)
ask_children api doc_id k start =
    request no_page "/blocks" (api.children k doc_id (start_from start))

-- `cursor and modified and modified <= cursor`
unfoldable pub is_old : Option String → String → Bool
is_old none modified = false
is_old (some cursor) modified = truthy cursor && truthy modified && str_le modified cursor

-- `if modified and (max_modified is None or modified > max_modified)`
unfoldable pub later_of : Option String → String → Option String
later_of none modified = if truthy modified then some modified else none
later_of (some latest) modified =
    if truthy modified && not (str_le modified latest) then some modified else some latest

-- The loop over the results of one page of the search.
unfoldable pub scan :
    Option String
    → List NotionPage
    → List SourceDoc × Option String
    → List SourceDoc × Option String
scan cursor [] found = found
scan cursor (page ∷ pages) (docs, max_modified) = scan cursor pages (
    if is_old cursor (modified_of page)
    then (docs, max_modified)
    else (docs ++ notion_page_to_source_doc page ∷ [], later_of max_modified (modified_of page)))

-- The loop over the pages of the search.
unfoldable pub search_loop :
    NotionApi
    → ℕ
    → ℕ
    → Option String
    → Option String
    → List SourceDoc × Option String
    → Option (Outcome (List SourceDoc × Option String))
search_loop api zero k cursor start found = none
search_loop api (suc fuel) k cursor start found =
    turn (ask_search api k start)
      (λ answer.
        search_loop api fuel (suc k) cursor answer.next_cursor (scan cursor answer.results found))
      (λ answer. scan cursor answer.results found)

unfoldable pub list_changes :
    NotionApi → ℕ → ℕ → Option String → Option (Outcome (List SourceDoc × Option String))
unfolding search_loop
list_changes api fuel k cursor = search_loop api fuel k cursor none ([], cursor)

-- `{}`, which is no page.
abbrev pub no_object : NotionPage
no_object = record { object = none; id = ""; properties = []; last_edited_time = none }

-- `validate_credentials`: any error but that of the token becomes a `ConnectorError`.
unfoldable pub validation : Outcome (Paged NotionPage) → Outcome (Unit {0})
validation (returned answer) = returned tt
validation (raised (auth e)) = raised (auth e)
validation (raised (rate_limit e)) = raised (other e)
validation (raised (other e)) = raised (other e)

abbrev pub validate_credentials : NotionApi → ℕ → Outcome (Unit {0})
validate_credentials api k = validation (ask_search api k none)

-- The loop over the children of a page, with the blocks so far.
unfoldable pub children_loop :
    NotionApi → String → ℕ → ℕ → Option String → List Block → Option (Outcome (List Block))
children_loop api doc_id zero k start blocks = none
children_loop api doc_id (suc fuel) k start blocks =
    turn (ask_children api doc_id k start)
      (λ answer.
        children_loop api doc_id fuel (suc k) answer.next_cursor (blocks ++ answer.results))
      (λ answer. blocks ++ answer.results)

module _ (strip : String → String) where
  abbrev pub blocks_to_markdown : List Block → String
  blocks_to_markdown blocks = strip (join_lines (lines_of blocks))

  abbrev pub rendered :
      NotionPage → Option (Outcome (List Block)) → Option (Outcome (String × SourceDoc))
  rendered page none = none
  rendered page (some (raised e)) = some (raised e)
  rendered page (some (returned blocks)) =
      some (returned (blocks_to_markdown blocks, notion_page_to_source_doc page))

  abbrev pub fetch_children :
      NotionApi → ℕ → ℕ → String → Outcome NotionPage → Option (Outcome (String × SourceDoc))
  fetch_children api fuel k doc_id (raised e) = some (raised e)
  fetch_children api fuel k doc_id (returned page) =
      if is_text "page" page.object
      then rendered page (children_loop api doc_id fuel (suc k) none [])
      else some (raised (other doc_id))

  unfoldable pub fetch_doc : NotionApi → ℕ → ℕ → String → Option (Outcome (String × SourceDoc))
  unfolding children_loop
  fetch_doc api fuel k doc_id =
      fetch_children api fuel k doc_id (request no_object "/pages" (api.page k doc_id))
