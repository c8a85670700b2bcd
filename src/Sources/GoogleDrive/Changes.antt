-- ===== src/Sources/GoogleDrive/Changes.antt =====
-- What the connector of Google Drive lists while its API answers and its token does not expire.
use know_gate.Prelude.{
  ◌+◌, lt→ltb, ℕ, zero, suc, ◌<◌, ◌≡◌, refl, sym, ap, ◌∙◌, String, Bool, true, false, ◌||◌, Option,
  none, some, List, [], ◌∷◌, ◌++◌, if◌then◌else◌, arith, Bool-cases, inl, inr, append_assoc,
  append-nil,
}
use know_gate.Sources.Base.{SourceDoc}
use know_gate.Sources.GoogleDrive.{
  Sent, Ended, value, GoogleDriveConnector, DriveApi, Change, ChangesPage, bind_ended, received,
  counted, check_status, retry_unauthorized, ensure_fresh, drive_get, found_in, is_in_folder,
  is_wanted, take_change, take_changes, changes_loop, after_page, start_cursor, list_changes,
  changed, add_if, give, Method, Listed, truthy, given, no_changes, shown,
}
use know_gate.Sources.GoogleDrive.Scope.{
  IsFresh, Serves, all_right, at_request, Follows, final_page, next_page, in_scope, doc_of, docs_of,
  docs_of-append,
}

drive_get-fresh :
    (api : DriveApi) {A : Type 0} (nothing a : A) (path : String) (ask : ℕ → String → Sent A)
    (c : GoogleDriveConnector) (expires : Option ℕ) (refresh : Option String)
    → c.token_expires_at ≡ expires
    → c.refresh_token ≡ refresh
    → IsFresh api expires
    → ask c.requests c.access_token ≡ all_right a
    → drive_get api nothing path ask c ≡ (value a, counted c)
unfolding drive_get ensure_fresh received retry_unauthorized check_status bind_ended
drive_get-fresh api nothing a path ask c none refresh t r fresh e = rw (t, e) refl
drive_get-fresh api nothing a path ask c (some expires) none t r fresh e = rw (t, r, e) refl
drive_get-fresh api nothing a path ask c (some expires) (some token) t r fresh e =
    rw (t, r, lt→ltb (api.now c.requests + 300) expires (fresh c.requests), e) refl

drive_get-all_right :
    (api : DriveApi) {A : Type 0} (nothing a : A) (path : String) (ask : ℕ → String → Sent A)
    (c : GoogleDriveConnector)
    → IsFresh api c.token_expires_at
    → ask c.requests c.access_token ≡ all_right a
    → drive_get api nothing path ask c ≡ (value a, counted c)
drive_get-all_right api nothing a path ask c =
    drive_get-fresh api nothing a path ask c c.token_expires_at c.refresh_token refl refl

add_if-append :
    (wanted : Bool) (doc : SourceDoc) (docs : List SourceDoc)
    → add_if wanted doc docs ≡ docs ++ (if wanted then doc ∷ [] else [])
add_if-append true doc docs = refl
add_if-append false doc docs = sym (append-nil docs)

after_page-final :
    (again : String → List SourceDoc → Method Listed) (token new_start : Option String)
    (docs : List SourceDoc)
    → given token ≡ false
    → after_page again token new_start docs ≡ give (some (docs, new_start))
unfolding after_page
after_page-final again none new_start docs h = refl
after_page-final again (some token) new_start docs h = rw h refl

bind_value :
    {A B : Type 0} (m : Ended A × GoogleDriveConnector) (a : A) (c : GoogleDriveConnector)
    (f : A → GoogleDriveConnector → Ended B × GoogleDriveConnector)
    → m ≡ (value a, c)
    → bind_ended m f ≡ f a c
unfolding bind_ended
bind_value m a c f e = rw e refl

module _ (api : DriveApi) (page : String → ChangesPage) (parents : String → List String)
    (start : Option String) (serves : Serves api page parents start) where
  -- A method that gives a value after some requests, and leaves the rest of the connector.
  abbrev pub Gives :
      {A : Type 0} → A → GoogleDriveConnector → Ended A × GoogleDriveConnector → Type 0
  Gives a c r = (k : ℕ) × (r ≡ (value a, at_request k c))

  is_wanted-Gives :
      (folder : Option String) (file_id : String) (c : GoogleDriveConnector)
      → IsFresh api c.token_expires_at
      → Gives (in_scope parents folder file_id) c (is_wanted api folder file_id c)
  unfolding is_wanted is_in_folder found_in
  is_wanted-Gives none file_id c fresh = (c.requests, refl)
  is_wanted-Gives (some folder) file_id c fresh = elim (Bool-cases (truthy folder)) [
    | inl some_folder ↦
        let got =
          drive_get-all_right api [] (parents file_id) "/files"
            (λ k token. api.parents k token file_id) c fresh
            (serves.parents_lem c.requests c.access_token file_id) in
        (suc c.requests, rw (some_folder, got) refl)
    | inr any_folder ↦ (c.requests, rw any_folder refl)
  ]

  take_change-Gives :
      (change : Change) (docs : List SourceDoc) (file_id : Option String) (c : GoogleDriveConnector)
      → IsFresh api c.token_expires_at
      → Gives
          (docs ++ doc_of parents c.folder_id change file_id)
          c
          (take_change api change docs file_id c)
  unfolding take_change doc_of
  take_change-Gives change docs none c fresh =
      (c.requests, ap (λ ds. (value ds, c)) (sym (append-nil docs)))
  take_change-Gives change docs (some file_id) c fresh = elim (Bool-cases (truthy file_id)) [
    | inr empty ↦ (c.requests, rw empty (ap (λ ds. (value ds, c)) (sym (append-nil docs))))
    | inl named ↦ elim (Bool-cases (change.removed || change.file.trashed)) [
      | inl gone ↦ (c.requests, rw (named, gone) refl)
      | inr there ↦
          let got = is_wanted-Gives c.folder_id file_id c fresh in
          (
            got.0,
            rw (named, there)
                (bind_value (is_wanted api c.folder_id file_id c)
                    (in_scope parents c.folder_id file_id) (at_request got.0 c)
                    (λ wanted. give (add_if wanted (changed file_id change.file) docs)) got.1
                  ∙ ap (λ ds. (value ds, at_request got.0 c))
                      (add_if-append (in_scope parents c.folder_id file_id)
                        (changed file_id change.file) docs)),
          )
    ]
  ]

  take_changes-Gives :
      (changes : List Change) (docs : List SourceDoc) (c : GoogleDriveConnector)
      → IsFresh api c.token_expires_at
      → Gives (docs ++ docs_of parents c.folder_id changes) c (take_changes api changes docs c)
  unfolding take_changes docs_of
  take_changes-Gives [] docs c fresh =
      (c.requests, ap (λ ds. (value ds, c)) (sym (append-nil docs)))
  take_changes-Gives (change ∷ changes) docs c fresh =
      let one : List SourceDoc = doc_of parents c.folder_id change change.file_id in
      let got = take_change-Gives change docs change.file_id c fresh in
      let rest = take_changes-Gives changes (docs ++ one) (at_request got.0 c) fresh in
      (
        rest.0,
        bind_value (take_change api change docs change.file_id c) (docs ++ one) (at_request got.0 c)
              (λ docs'. take_changes api changes docs') got.1
            ∙ (rest.1
                ∙ ap (λ ds. (value ds, at_request rest.0 c))
                    (append_assoc docs one (docs_of parents c.folder_id changes))),
      )

  -- One page: what comes after it starts from its documents.
  one_page :
      (fuel : ℕ) (t : String) (docs : List SourceDoc) (c : GoogleDriveConnector)
      → IsFresh api c.token_expires_at
      → (k : ℕ) × (changes_loop api (suc fuel) t docs c
          ≡ after_page
              (λ token found. changes_loop api fuel token found)
              (page t).next_page_token
              (page t).new_start_page_token
              (docs ++ docs_of parents c.folder_id (page t).changes)
              (at_request k c))
  unfolding changes_loop
  one_page fuel t docs c fresh =
      let got = take_changes-Gives (page t).changes docs (counted c) fresh in
      (
        got.0,
        bind_value (drive_get api no_changes "/changes" (λ k token. api.changes k token t) c)
              (page t) (counted c) _
              (drive_get-all_right api no_changes (page t) "/changes"
                (λ k token. api.changes k token t) c fresh
                (serves.changes_lem c.requests c.access_token t))
            ∙ bind_value (take_changes api (page t).changes docs (counted c))
                (docs ++ docs_of parents c.folder_id (page t).changes) (at_request got.0 c) _ got.1,
      )

  changes_loop-Follows :
      (fuel n : ℕ) (t : String) (all : List Change) (s : Option String) (docs : List SourceDoc)
      (c : GoogleDriveConnector)
      → Follows page t n all s
      → n < fuel
      → IsFresh api c.token_expires_at
      → Gives (some (docs ++ docs_of parents c.folder_id all, s)) c (changes_loop api fuel t docs c)
  unfolding changes_loop after_page
  changes_loop-Follows zero n t all s docs c pages h fresh = elim h [ ]
  changes_loop-Follows (suc fuel) zero t all s docs c (final_page last) h fresh =
      let got = one_page fuel t docs c fresh in
      (
        got.0,
        got.1
            ∙ ap (λ (m : Method Listed). m (at_request got.0 c))
                (after_page-final _ (page t).next_page_token (page t).new_start_page_token
                  (docs ++ docs_of parents c.folder_id (page t).changes) last),
      )
  changes_loop-Follows (suc fuel) (suc n) t all s docs c (next_page {rest} u e more pages) h fresh =
      let got = one_page fuel t docs c fresh in
      let found : List SourceDoc = docs ++ docs_of parents c.folder_id (page t).changes in
      let later =
        changes_loop-Follows fuel n u rest s found (at_request got.0 c) pages (omega (arith, h))
          fresh in
      (
        later.0,
        got.1
            ∙ (rw (e, more) later.1
                ∙ ap (λ ds. (value (some (ds, s)), at_request later.0 c))
                    (append_assoc docs (docs_of parents c.folder_id (page t).changes)
                        (docs_of parents c.folder_id rest)
                      ∙ ap (λ ds. docs ++ ds)
                          (sym (docs_of-append parents c.folder_id (page t).changes rest)))),
      )

  -- Where a listing starts: at its cursor, and without one at the token that the API gives now.
  abbrev pub first_token : Option String → String
  first_token none = shown start
  first_token (some t) = t

  start_cursor-Gives :
      (cursor : Option String) (c : GoogleDriveConnector)
      → IsFresh api c.token_expires_at
      → Gives (first_token cursor) c (start_cursor api cursor c)
  unfolding start_cursor
  start_cursor-Gives (some t) c fresh = (c.requests, refl)
  start_cursor-Gives none c fresh = (
    suc c.requests,
    bind_value (drive_get api none "/changes/startPageToken" api.start_page_token c) start
        (counted c) _
        (drive_get-all_right api none start "/changes/startPageToken" api.start_page_token c fresh
          (serves.start_lem c.requests c.access_token)),
  )

  -- If the API answers every request, the token needs no refresh at any time of the listing and the pages of changes end within
  -- the fuel, then the listing gives, over all pages and in order, each changed file that lies in the
  -- folder of the connector, if it has one, and each removed or trashed file as deleted, with the
  -- token that the last page names for the next listing. Without a cursor it starts at the token that
  -- the API gives now, so a first listing has the changes from now on, not the files there are.
  pub list_changes-Follows :
      (fuel n : ℕ) (cursor : Option String) (all : List Change) (s : Option String)
      (c : GoogleDriveConnector)
      → IsFresh api c.token_expires_at
      → truthy (first_token cursor) ≡ true
      → Follows page (first_token cursor) n all s
      → n < fuel
      → Gives (some (docs_of parents c.folder_id all, s)) c (list_changes api fuel cursor c)
  unfolding list_changes
  list_changes-Follows fuel n cursor all s c fresh named pages h =
      let got = start_cursor-Gives cursor c fresh in
      let later =
        changes_loop-Follows fuel n (first_token cursor) all s [] (at_request got.0 c) pages h
          fresh in
      (
        later.0,
        bind_value (start_cursor api cursor c) (first_token cursor) (at_request got.0 c) _ got.1
            ∙ rw named later.1,
      )
