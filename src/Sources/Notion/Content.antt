-- ===== src/Sources/Notion/Content.antt =====
-- What the connector of Notion fetches of one page.
use know_gate.Prelude.{
  ℕ, zero, suc, ◌<◌, ◌≡◌, refl, ap, ◌∙◌, String, true, Option, none, some, List, [], ◌++◌, arith,
  append_assoc,
}
use know_gate.Sources.Base.{returned}
use know_gate.Sources.Notion.{
  NotionPage, Block, NotionApi, ask_children, children_loop, request, no_object, is_text, fetch_doc,
  fetch_children, blocks_to_markdown, notion_page_to_source_doc,
}
use know_gate.Sources.Notion.Listing.{Pages, last_page, more_pages, turn-last, turn-more}

children_loop-Pages :
    (api : NotionApi) (doc_id : String) (fuel k : ℕ) (start : Option String) (n : ℕ)
    (all blocks : List Block)
    → Pages (ask_children api doc_id) k start n all
    → n < fuel
    → children_loop api doc_id fuel k start blocks ≡ some (returned (blocks ++ all))
unfolding children_loop
children_loop-Pages api doc_id zero k start n all blocks pages h = elim h [ ]
children_loop-Pages api doc_id (suc fuel) k start zero all blocks (last_page p e d) h =
    turn-last (ask_children api doc_id k start) p _ _ e d
children_loop-Pages api doc_id (suc fuel) k start (suc n) all blocks (more_pages {rest} p e d pages)
      h =
    turn-more (ask_children api doc_id k start) p _ _ e d
    ∙ (children_loop-Pages api doc_id fuel (suc k) p.next_cursor n rest (blocks ++ p.results) pages
          (omega (arith, h))
        ∙ ap (λ bs. some (returned bs)) (append_assoc blocks p.results rest))

-- If the id is that of a page and the listing of its children ends within the fuel, then the page is
-- fetched: its text is the Markdown of all its direct children in order, whatever the pages of the
-- listing, and its metadata is that of the page. The blocks below these children are not fetched.
pub fetch_doc-content :
    (strip : String → String) (api : NotionApi) (fuel k n : ℕ) (doc_id : String) (page : NotionPage)
    (all : List Block)
    → request no_object "/pages" (api.page k doc_id) ≡ returned page
    → is_text "page" page.object ≡ true
    → Pages (ask_children api doc_id) (suc k) none n all
    → n < fuel
    → fetch_doc strip api fuel k doc_id
      ≡ some (returned (blocks_to_markdown strip all, notion_page_to_source_doc page))
unfolding fetch_doc
fetch_doc-content strip api fuel k n doc_id page all e object pages h =
    ap (λ found. fetch_children strip api fuel k doc_id found) e
    ∙ rw (object, children_loop-Pages api doc_id fuel (suc k) none n all [] pages h) refl
