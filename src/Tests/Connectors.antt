-- ===== src/Tests/Connectors.antt =====
-- Runs of the connectors of backend/app/sources.
use know_gate.Prelude.{
  ℕ, ◌*◌, ◌+◌, ◌≡◌, refl, String, true, false, Option, none, some, List, [], ◌∷◌, map, arith,
  str_eq, if◌then◌else◌,
}
use know_gate.Db.Table.{select}
use know_gate.Sources.Base.{returned}
use know_gate.Sources.Http.{Response}
use know_gate.Sources.TokenBucket.{acquire_all, at_once, drained, acquire_all-at_once}
use know_gate.Sources.Notion.{
  modified_of, Paged, NotionPage, NotionApi, Block, request, no_object, list_changes, fetch_doc,
  notion_page_to_source_doc, ask_search, ask_children, blocks_to_markdown, lines_of, join_lines,
  of_type, block_lines, plain_text, handle,
}
use know_gate.Sources.Notion.Listing.{
  Pages, last_page, more_pages, fresh, latest, list_changes-fresh, list_changes-again,
}
use know_gate.Sources.Notion.Content.{fetch_doc-content}
use know_gate.Sources.GoogleDrive
use know_gate.Sources.GoogleDrive.{
  config_from_oauth_tokens, GoogleDriveConnector, DriveApi, Change, ChangesPage, DriveFile, Sent,
  answered, value, no_file,
}
use know_gate.Sources.GoogleDrive.Scope.{
  IsFresh, Serves, Follows, final_page, next_page, all_right, at_request, docs_of,
}
use know_gate.Sources.GoogleDrive.Changes.{list_changes-Follows}

-- Six calls in the time of three tokens.
acquire_all-at_once_example : (acquire_all (at_once 3) 50 (drained 3 1000 50)).1 ≡ 50 + 3 * 1000
acquire_all-at_once_example = acquire_all-at_once 3 1000 3 50 (omega arith) (omega arith)

abbrev roadmap : NotionPage
roadmap = record {
  object = some "page";
  id = "p1";
  properties = record { type = some "title"; title = some "Road" ∷ some "map" ∷ [] } ∷ [];
  last_edited_time = some "2026-06-14T10:00:00.000Z";
}

abbrev notes : NotionPage
notes = record {
  object = some "page";
  id = "p2";
  properties = [];
  last_edited_time = some "2026-06-13T09:00:00.000Z";
}

abbrev heading : Block
heading = record {
  type = some "heading_1";
  rich_text = some "Plan" ∷ [];
  checked = false;
  language = none;
}

-- Two pages of one result each.
abbrev second_results : Option String → Response (Paged NotionPage)
second_results none = record {
  status_code = 200;
  content = some (record { results = roadmap ∷ []; has_more = true; next_cursor = some "c" });
}
second_results (some c) = record {
  status_code = 200;
  content = some (record { results = notes ∷ []; has_more = false; next_cursor = none });
}

abbrev notion : NotionApi
notion = record {
  search = λ k start. returned (second_results start);
  page = λ k id. returned (record { status_code = 200; content = some roadmap });
  children = λ k id start. returned (record {
    status_code = 200;
    content = some (record { results = heading ∷ []; has_more = false; next_cursor = none });
  });
}

notion-Pages : (k : ℕ) → Pages (ask_search notion) k none 1 (roadmap ∷ notes ∷ [])
unfolding request handle
notion-Pages k =
    more_pages (record { results = roadmap ∷ []; has_more = true; next_cursor = some "c" }) refl
      refl
      (last_page (record { results = notes ∷ []; has_more = false; next_cursor = none }) refl refl)

list_changes-fresh_example :
    list_changes notion 2 0 (some "2026-06-14T00:00:00.000Z")
    ≡ some (
        returned (
          map notion_page_to_source_doc
              (select (fresh (some "2026-06-14T00:00:00.000Z")) (roadmap ∷ notes ∷ [])),
          latest (some "2026-06-14T00:00:00.000Z") (
              map modified_of
                (select (fresh (some "2026-06-14T00:00:00.000Z")) (roadmap ∷ notes ∷ []))),
        ))
list_changes-fresh_example =
    list_changes-fresh notion 2 0 1 (some "2026-06-14T00:00:00.000Z") (roadmap ∷ notes ∷ [])
      (notion-Pages 0) (omega arith)

list_changes-again_example :
    list_changes notion 2 5
      (latest none (map modified_of (select (fresh none) (roadmap ∷ notes ∷ []))))
    ≡ some
        (returned ([], latest none (map modified_of (select (fresh none) (roadmap ∷ notes ∷ [])))))
list_changes-again_example =
    list_changes-again notion 2 2 0 5 1 1 none
      (latest none (map modified_of (select (fresh none) (roadmap ∷ notes ∷ []))))
      (roadmap ∷ notes ∷ [])
      (map notion_page_to_source_doc (select (fresh none) (roadmap ∷ notes ∷ []))) (notion-Pages 0)
      (notion-Pages 5) (omega arith) (omega arith)
      (list_changes-fresh notion 2 0 1 none (roadmap ∷ notes ∷ []) (notion-Pages 0) (omega arith))

heading-Pages : Pages (ask_children notion "p1") 1 none 0 (heading ∷ [])
unfolding request handle
heading-Pages =
    last_page (record { results = heading ∷ []; has_more = false; next_cursor = none }) refl refl

page_found : request no_object "/pages" (notion.page 0 "p1") ≡ returned roadmap
unfolding request handle
page_found = refl

fetch_doc-content_example :
    fetch_doc (λ s. s) notion 1 0 "p1"
    ≡ some
        (returned (blocks_to_markdown (λ s. s) (heading ∷ []), notion_page_to_source_doc roadmap))
fetch_doc-content_example =
    fetch_doc-content (λ s. s) notion 1 0 0 "p1" roadmap (heading ∷ []) page_found refl
      heading-Pages (omega arith)

heading_text : blocks_to_markdown (λ s. s) (heading ∷ []) ≡ "# Plan\n"
unfolding lines_of of_type block_lines plain_text join_lines
heading_text = refl

abbrev report : DriveFile
report = record {
  name = some "Report";
  mime_type = some "text/plain";
  size = some 12;
  trashed = false;
}

-- A changed file, and one that was removed.
abbrev drive_changes : List Change
drive_changes =
    record { file_id = some "f1"; removed = false; file = report }
    ∷ record { file_id = some "f2"; removed = true; file = no_file }
    ∷ []

abbrev drive_page : String → ChangesPage
drive_page token = record {
  changes = if str_eq token "t2" then [] else drive_changes;
  next_page_token = if str_eq token "t2" then none else some "t2";
  new_start_page_token = some "t3";
}

abbrev drive : DriveApi
drive = record {
  now = λ k. 0;
  refresh = λ k id secret token. Sent.timed_out;
  files = λ k token. all_right tt;
  start_page_token = λ k token. all_right (some "t1");
  changes = λ k token page_token. all_right (drive_page page_token);
  parents = λ k token file_id. all_right ("folder" ∷ []);
  metadata = λ k token file_id. all_right report;
  media = λ k token file_id. all_right "text";
}

drive-Serves : Serves drive drive_page (λ file_id. "folder" ∷ []) (some "t1")
drive-Serves = record {
  changes_lem = λ k token page_token. refl;
  parents_lem = λ k token file_id. refl;
  start_lem = λ k token. refl;
}

-- The connector of a sign-in by OAuth, with an hour left.
abbrev connector : GoogleDriveConnector
connector = config_from_oauth_tokens 0 "a" (some "r") "id" "secret" 3600 (some "folder")

connector-IsFresh : IsFresh drive connector.token_expires_at
connector-IsFresh k = omega arith

drive-Follows : Follows drive_page "t1" 1 drive_changes (some "t3")
drive-Follows = next_page "t2" refl refl (final_page refl)

list_changes-Follows_example :
    (k : ℕ) × (GoogleDrive.list_changes drive 2 none connector ≡ (
      value (some (docs_of (λ file_id. "folder" ∷ []) (some "folder") drive_changes, some "t3")),
      at_request k connector,
    ))
list_changes-Follows_example =
    list_changes-Follows drive drive_page (λ file_id. "folder" ∷ []) (some "t1") drive-Serves 2 1
      none drive_changes (some "t3") connector connector-IsFresh refl drive-Follows (omega arith)

-- While the request for the parents of a file is refused for its rate, the file is passed over, and
-- the next listing starts after it.
abbrev limited : DriveApi
limited = record drive {
  parents = λ k token file_id. answered (record { status_code = 429; content = none });
}

limited_folder :
    (GoogleDrive.list_changes limited 2 (some "t1") connector).0
    ≡ value (some (GoogleDrive.tombstone "f2" no_file ∷ [], some "t3"))
unfolding GoogleDrive.list_changes
limited_folder = refl
