-- ===== src/Sources/Notion/Listing.antt =====
-- What the connector of Notion lists, over all pages of a listing.
use Prim.Native.String.{◌++◌ as concat}
use text.Mathlib.TextLemmas.{append-ne-nil_of_right_ne-nil, cons-ne-nil}
use know_gate.Prelude.{
  ◌≢◌, ℕ, zero, suc, ◌<◌, ◌≡◌, refl, sym, ap, subst, ◌∙◌, String, Bool, true, false, not, ◌||◌,
  str_eq, Option, none, some, List, [], ◌∷◌, ◌++◌, map, eq_iff, All, arith, Bool-cases, inl, inr,
  if◌then◌else◌, append_assoc, append-nil,
}
use know_gate.Prelude.Order.{str_le, str_le-IsOrder, str_le-nil}
use know_gate.Db.Table.{select}
use know_gate.Sources.Base.{Outcome, returned, SourceDoc}
use know_gate.Sources.Notion.{
  Paged, NotionPage, NotionApi, ask_search, notion_page_to_source_doc, turn, modified_of, truthy,
  rstrip_z, or_empty, is_old, later_of, scan, search_loop, list_changes,
}

-- A listing that ends: from a cursor, the pages that follow one another have these results, and
-- there are `n` pages after the first. Each `ask` has the number of its call.
pub data Pages {A : Type 0} (ask : ℕ → Option String → Outcome (Paged A))
    : ℕ → Option String → ℕ → List A → Type 0 where
  last_page :
      {k : ℕ} {start : Option String} (p : Paged A)
      → ask k start ≡ returned p
      → p.has_more ≡ false
      → Pages ask k start zero p.results
  more_pages :
      {k : ℕ} {start : Option String} {n : ℕ} {rest : List A} (p : Paged A)
      → ask k start ≡ returned p
      → p.has_more ≡ true
      → Pages ask (suc k) p.next_cursor n rest
      → Pages ask k start (suc n) (p.results ++ rest)

module _ {A B : Type 0} (o : Outcome (Paged A)) (p : Paged A) (again : Paged A → Option (Outcome B))
    (found : Paged A → B) where
  pub turn-last :
      o ≡ returned p → p.has_more ≡ false → turn o again found ≡ some (returned (found p))
  unfolding turn
  turn-last e d = rw (e, d) refl

  pub turn-more : o ≡ returned p → p.has_more ≡ true → turn o again found ≡ again p
  unfolding turn
  turn-more e d = rw (e, d) refl

z-ne-nil : ◌≢◌ {A = String} "Z" ""
z-ne-nil = cons-ne-nil _ _

modified-truthy : (page : NotionPage) → truthy (modified_of page) ≡ true
modified-truthy page =
    let z : concat (rstrip_z (or_empty page.last_edited_time)) "Z" ≢ "" =
      append-ne-nil_of_right_ne-nil (rstrip_z (or_empty page.last_edited_time)) z-ne-nil in
    ground (arith, eq_iff (concat (rstrip_z (or_empty page.last_edited_time)) "Z") "", z)

scan-append :
    (cursor : Option String) (xs ys : List NotionPage) (found : List SourceDoc × Option String)
    → scan cursor (xs ++ ys) found ≡ scan cursor ys (scan cursor xs found)
unfolding scan
scan-append cursor [] ys found = refl
scan-append cursor (x ∷ xs) ys (docs, m) = scan-append cursor xs ys _

search_loop-Pages :
    (api : NotionApi) (fuel k : ℕ) (cursor start : Option String) (n : ℕ) (all : List NotionPage)
    (found : List SourceDoc × Option String)
    → Pages (ask_search api) k start n all
    → n < fuel
    → search_loop api fuel k cursor start found ≡ some (returned (scan cursor all found))
unfolding search_loop
search_loop-Pages api zero k cursor start n all found pages h = elim h [ ]
search_loop-Pages api (suc fuel) k cursor start zero all found (last_page p e d) h =
    turn-last (ask_search api k start) p _ _ e d
search_loop-Pages api (suc fuel) k cursor start (suc n) all found (more_pages {rest} p e d pages)
      h =
    turn-more (ask_search api k start) p _ _ e d
    ∙ (search_loop-Pages api fuel (suc k) cursor p.next_cursor n rest (scan cursor p.results found)
          pages (omega (arith, h))
        ∙ ap (λ f. some (returned f)) (sym (scan-append cursor p.results rest found)))

-- A page whose time is after the cursor in the order of texts; without a cursor every page is.
abbrev pub fresh : Option String → NotionPage → Bool
fresh none page = true
fresh (some cursor) page = str_eq cursor "" || not (str_le (modified_of page) cursor)

fresh-is_old :
    (cursor : Option String) (page : NotionPage)
    → fresh cursor page ≡ not (is_old cursor (modified_of page))
unfolding is_old
fresh-is_old none page = refl
fresh-is_old (some cursor) page = ground (arith, modified-truthy page)

-- The latest of some times in the order of texts.
abbrev pub later_text : Option String → String → String
later_text none t = t
later_text (some s) t = if str_le s t then t else s

unfoldable pub latest : Option String → List String → Option String
latest m [] = m
latest m (t ∷ times) = latest (some (later_text m t)) times

-- The latest time of the fresh pages and `m`.
unfoldable pub max_of : Option String → List NotionPage → Option String → Option String
max_of cursor [] m = m
max_of cursor (page ∷ pages) m =
    max_of cursor pages
      (if is_old cursor (modified_of page) then m else later_of m (modified_of page))

max_of-old :
    (cursor : Option String) (page : NotionPage) (pages : List NotionPage) (m : Option String)
    → is_old cursor (modified_of page) ≡ true
    → max_of cursor (page ∷ pages) m ≡ max_of cursor pages m
unfolding max_of
max_of-old cursor page pages m old = rw old refl

max_of-new :
    (cursor : Option String) (page : NotionPage) (pages : List NotionPage) (m : Option String)
    → is_old cursor (modified_of page) ≡ false
    → max_of cursor (page ∷ pages) m ≡ max_of cursor pages (later_of m (modified_of page))
unfolding max_of
max_of-new cursor page pages m new = rw new refl

scan-max_of :
    (cursor : Option String) (pages : List NotionPage) (docs : List SourceDoc) (m : Option String)
    → scan cursor pages (docs, m)
      ≡ (docs ++ map notion_page_to_source_doc (select (fresh cursor) pages), max_of cursor pages m)
unfolding scan max_of select
scan-max_of cursor [] docs m = rw (append-nil docs) refl
scan-max_of cursor (page ∷ pages) docs m = elim (Bool-cases (is_old cursor (modified_of page))) [
  | inl old ↦
      let stale : fresh cursor page ≡ false = fresh-is_old cursor page ∙ rw old refl in
      rw (old, stale) (scan-max_of cursor pages docs m)
  | inr new ↦
      let recent : fresh cursor page ≡ true = fresh-is_old cursor page ∙ rw new refl in
      rw
        (
          new,
          recent,
          scan-max_of cursor pages (docs ++ notion_page_to_source_doc page ∷ [])
              (later_of m (modified_of page)),
          append_assoc docs (notion_page_to_source_doc page ∷ [])
              (map notion_page_to_source_doc (select (fresh cursor) pages)),
        )
        refl
]

list_changes-max_of :
    (api : NotionApi) (fuel k n : ℕ) (cursor : Option String) (all : List NotionPage)
    → Pages (ask_search api) k none n all
    → n < fuel
    → list_changes api fuel k cursor
      ≡ some (
          returned
            (map notion_page_to_source_doc (select (fresh cursor) all), max_of cursor all cursor))
unfolding list_changes
list_changes-max_of api fuel k n cursor all pages h =
    search_loop-Pages api fuel k cursor none n all ([], cursor) pages h
    ∙ ap (λ found. some (returned found)) (scan-max_of cursor all [] cursor)

later_of-later_text :
    (m : Option String) (page : NotionPage)
    → later_of m (modified_of page) ≡ some (later_text m (modified_of page))
unfolding later_of
later_of-later_text none page = ground (arith, modified-truthy page)
later_of-later_text (some s) page = ground (
  arith,
  modified-truthy page,
  str_le-IsOrder.le_total s (modified_of page),
  str_le-IsOrder.le_antisym s (modified_of page),
)

max_of-latest :
    (cursor : Option String) (pages : List NotionPage) (m : Option String)
    → max_of cursor pages m ≡ latest m (map modified_of (select (fresh cursor) pages))
unfolding max_of latest select
max_of-latest cursor [] m = refl
max_of-latest cursor (page ∷ pages) m = elim (Bool-cases (is_old cursor (modified_of page))) [
  | inl old ↦
      let stale : fresh cursor page ≡ false = fresh-is_old cursor page ∙ rw old refl in
      rw (old, stale) (max_of-latest cursor pages m)
  | inr new ↦
      let recent : fresh cursor page ≡ true = fresh-is_old cursor page ∙ rw new refl in
      rw (new, recent, later_of-later_text m page)
        (max_of-latest cursor pages (some (later_text m (modified_of page))))
]

-- If the pages of a listing end within the fuel, the documents listed are those of the pages edited
-- after the cursor, over all pages of the listing and in their order, and the next cursor is the
-- latest of their times and the old cursor, in the order of texts.
pub list_changes-fresh :
    (api : NotionApi) (fuel k n : ℕ) (cursor : Option String) (all : List NotionPage)
    → Pages (ask_search api) k none n all
    → n < fuel
    → list_changes api fuel k cursor
      ≡ some (
          returned (
            map notion_page_to_source_doc (select (fresh cursor) all),
            latest cursor (map modified_of (select (fresh cursor) all)),
          ))
list_changes-fresh api fuel k n cursor all pages h =
    list_changes-max_of api fuel k n cursor all pages h
    ∙ ap (λ top. some (returned (map notion_page_to_source_doc (select (fresh cursor) all), top)))
        (max_of-latest cursor all cursor)

is_old-later_of :
    (m : Option String) (s t : String) → is_old m s ≡ true → is_old (later_of m t) s ≡ true
unfolding is_old later_of
is_old-later_of none s t h = cc
is_old-later_of (some c) s t h =
    ground (arith, str_le-IsOrder.le_total c t, str_le-IsOrder.le_trans s c t)

later_of-is_old :
    (m : Option String) (s : String) → truthy s ≡ true → is_old (later_of m s) s ≡ true
unfolding is_old later_of
later_of-is_old none s h = ground (arith, str_le-IsOrder.le_total s s)
later_of-is_old (some c) s h = ground (
  arith,
  str_le-IsOrder.le_total s s,
  str_le-IsOrder.le_antisym s "",
  str_le-nil s,
  eq_iff c "",
  eq_iff s "",
)

-- What is old stays old, and every page is old at the end.
max_of-is_old :
    (cursor : Option String) (pages : List NotionPage) (m : Option String) (s : String)
    → is_old m s ≡ true
    → is_old (max_of cursor pages m) s ≡ true
unfolding max_of
max_of-is_old cursor [] m s h = h
max_of-is_old cursor (page ∷ pages) m s h = elim (Bool-cases (is_old cursor (modified_of page))) [
  | inl old ↦ rw old (max_of-is_old cursor pages m s h)
  | inr new ↦ rw new (
      max_of-is_old cursor pages (later_of m (modified_of page)) s
        (is_old-later_of m s (modified_of page) h))
]

max_of-All :
    (cursor : Option String) (pages : List NotionPage) (m : Option String)
    → ((s : String) → is_old cursor s ≡ true → is_old m s ≡ true)
    → All (λ page. is_old (max_of cursor pages m) (modified_of page) ≡ true) pages
max_of-All cursor [] m above = tt
max_of-All cursor (page ∷ pages) m above = elim (Bool-cases (is_old cursor (modified_of page))) [
  | inl old ↦
      subst (λ top. All (λ q. is_old top (modified_of q) ≡ true) (page ∷ pages))
        (sym (max_of-old cursor page pages m old))
        (
          max_of-is_old cursor pages m (modified_of page) (above (modified_of page) old),
          max_of-All cursor pages m above,
        )
  | inr new ↦
      let m' : Option String = later_of m (modified_of page) in
      subst (λ top. All (λ q. is_old top (modified_of q) ≡ true) (page ∷ pages))
        (sym (max_of-new cursor page pages m new))
        (
          max_of-is_old cursor pages m' (modified_of page)
              (later_of-is_old m (modified_of page) (modified-truthy page)),
          max_of-All cursor pages m' (λ s h. is_old-later_of m s (modified_of page) (above s h)),
        )
]

-- With a cursor that no page is after, nothing is fresh.
nothing_fresh :
    (cursor m : Option String) (pages : List NotionPage)
    → All (λ page. is_old cursor (modified_of page) ≡ true) pages
    → (select (fresh cursor) pages ≡ []) × (max_of cursor pages m ≡ m)
unfolding select max_of
nothing_fresh cursor m [] h = (refl, refl)
nothing_fresh cursor m (page ∷ pages) h =
    let rest = nothing_fresh cursor m pages h.1 in
    let stale : fresh cursor page ≡ false = fresh-is_old cursor page ∙ rw h.0 refl in
    (rw stale rest.0, rw h.0 rest.1)

-- A second listing of the same pages with the cursor that the first one gave lists nothing and keeps
-- the cursor, if both end within their fuel, however the pages are cut.
pub list_changes-again :
    (api : NotionApi) (fuel fuel' k k' n n' : ℕ) (cursor next : Option String)
    (all : List NotionPage) (docs : List SourceDoc)
    → Pages (ask_search api) k none n all
    → Pages (ask_search api) k' none n' all
    → n < fuel
    → n' < fuel'
    → list_changes api fuel k cursor ≡ some (returned (docs, next))
    → list_changes api fuel' k' next ≡ some (returned ([], next))
list_changes-again api fuel fuel' k k' n n' cursor next all docs first second h h' listed =
    let found = list_changes-max_of api fuel k n cursor all first h in
    let same : max_of cursor all cursor ≡ next = cc in
    let old : All (λ page. is_old next (modified_of page) ≡ true) all =
      subst (λ top. All (λ page. is_old top (modified_of page) ≡ true) all) same
        (max_of-All cursor all cursor (λ s old. old)) in
    let nothing = nothing_fresh next next all old in
    list_changes-max_of api fuel' k' n' next all second h' ∙ rw (nothing.0, nothing.1) refl
