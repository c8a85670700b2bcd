-- ===== src/Sources/Sync/Documents.antt =====
-- What a run of the sync engine keeps of the tables: a document of a source has one row, and each key
-- in the table is the key of an object in the storage.
use know_gate.Prelude.{
  ◌+◌, ◌≤◌, ◌≡◌, refl, String, Bool, true, false, Option, none, some, List, [], ◌∷◌, ◌++◌, eq_iff,
  if◌then◌else◌, any, arith, Bool-cases, inl, inr, All, All-append, Any, Any-left, Any-last,
  All-map,
}
use know_gate.Db.{Document}
use know_gate.Db.Table.{update_where, count_where}
use know_gate.Sources.Base.{SourceDoc}
use know_gate.Sources.Sync.{
  Services, Store, Providers, is_row, upsert_rows, mark_doc_deleted, refresh, new_row, mark_deleted,
  run_sync, key_of,
}
use know_gate.Sources.Sync.Keeps.{run_sync-keeps}

-- `UNIQUE (source, source_id)`
unfoldable pub OneRow : String → String → List Document → Type 0
OneRow type doc_id documents = count_where (is_row type doc_id) documents ≤ 1

count_where-update :
    (p q : Document → Bool) (f : Document → Document) (documents : List Document)
    → ((d : Document) → q (f d) ≡ q d)
    → count_where q (update_where p f documents) ≡ count_where q documents
unfolding count_where update_where
count_where-update p q f [] same = refl
count_where-update p q f (d ∷ documents) same =
    ground (arith, same d, count_where-update p q f documents same)

count_where-append :
    (q : Document → Bool) (documents : List Document) (d : Document)
    → count_where q (documents ++ d ∷ []) ≡ count_where q documents + (if q d then 1 else 0)
unfolding count_where
count_where-append q [] d = omega arith
count_where-append q (e ∷ documents) d = omega (arith, count_where-append q documents d)

count_where-none :
    (q : Document → Bool) (documents : List Document)
    → any q documents ≡ false
    → count_where q documents ≡ 0
unfolding count_where
count_where-none q [] h = refl
count_where-none q (d ∷ documents) h = ground (arith, count_where-none q documents)

upsert-OneRow :
    (type doc_id row_id source_type : String) (doc : SourceDoc) (key : String)
    (documents : List Document)
    → OneRow type doc_id documents
    → OneRow type doc_id (upsert_rows row_id source_type doc key documents)
unfolding upsert_rows OneRow
upsert-OneRow type doc_id row_id source_type doc key documents h =
    elim (Bool-cases (any (is_row source_type doc.id) documents)) [
      | inl old ↦ rw old (
          omega (
            arith,
            h,
            count_where-update (is_row source_type doc.id) (is_row type doc_id) (refresh doc key)
                documents (λ _. refl),
          ))
      | inr new ↦ rw new (
          ground (
            arith,
            h,
            eq_iff source_type type,
            eq_iff doc.id doc_id,
            count_where-append (is_row type doc_id) documents (new_row row_id source_type doc key),
            count_where-none (is_row source_type doc.id) documents new,
          ))
    ]

-- The key of an object.
abbrev pub In : String → List (String × String) → Type 0
In key objects = Any (λ o. o.0 ≡ key) objects

abbrev pub KeyStored : List (String × String) → Option String → Type 0
KeyStored objects none = Unit
KeyStored objects (some key) = In key objects

-- Each document of a source has at most one row, and an object in the storage under its key.
pub record IsConsistent (documents : List Document) (objects : List (String × String))
    : Type 0 where
  pub rows : (type doc_id : String) → OneRow type doc_id documents
  pub stored : All (λ d. KeyStored objects d.object_key) documents

KeyStored-more :
    (objects : List (String × String)) (o : String × String) (k : Option String)
    → KeyStored objects k
    → KeyStored (objects ++ o ∷ []) k
KeyStored-more objects o none h = tt
KeyStored-more objects o (some key) h = Any-left _ objects (o ∷ []) h

All-update_where :
    {P : Document → Type 0} (p : Document → Bool) (f : Document → Document)
    (documents : List Document)
    → ((d : Document) → P d → P (f d))
    → All P documents
    → All P (update_where p f documents)
unfolding update_where
All-update_where p f [] step h = tt
All-update_where {P} p f (d ∷ documents) step h =
    (either (p d), All-update_where p f documents step h.1)
  where
    either : (b : Bool) → P (if b then f d else d)
    either true = step d h.0
    either false = h.0

stored-upsert :
    (objects : List (String × String)) (row_id source_type : String) (doc : SourceDoc)
    (key : String) (documents : List Document)
    → In key objects
    → All (λ d. KeyStored objects d.object_key) documents
    → All (λ d. KeyStored objects d.object_key) (upsert_rows row_id source_type doc key documents)
unfolding upsert_rows
stored-upsert objects row_id source_type doc key documents here h =
    elim (Bool-cases (any (is_row source_type doc.id) documents)) [
      | inl old ↦
          rw old (
            All-update_where (is_row source_type doc.id) (refresh doc key) documents (λ d _. here)
              h)
      | inr new ↦
          rw new (All-append _ documents (new_row row_id source_type doc key ∷ []) h (here, tt))
    ]

deleted-IsConsistent :
    (source_type doc_id : String) (documents : List Document) (objects : List (String × String))
    → IsConsistent documents objects
    → IsConsistent (mark_doc_deleted source_type doc_id documents) objects
unfolding mark_doc_deleted OneRow
deleted-IsConsistent source_type doc_id documents objects h = record {
  rows = λ type id. omega (
    arith,
    h.rows type id,
    count_where-update (is_row source_type doc_id) (is_row type id) mark_deleted documents
        (λ _. refl),
  );
  stored = All-update_where (is_row source_type doc_id) mark_deleted documents (λ d k. k) h.stored;
}

upload-IsConsistent :
    (row_id source_type raw : String) (doc : SourceDoc) (key : String) (documents : List Document)
    (objects : List (String × String))
    → IsConsistent documents objects
    → IsConsistent (upsert_rows row_id source_type doc key documents) (objects ++ (key, raw) ∷ [])
upload-IsConsistent row_id source_type raw doc key documents objects h = record {
  rows = λ type id. upsert-OneRow type id row_id source_type doc key documents (h.rows type id);
  stored =
      stored-upsert (objects ++ (key, raw) ∷ []) row_id source_type doc key documents
        (Any-last _ objects (key, raw) refl)
        (All-map (λ d k. KeyStored-more objects (key, raw) d.object_key k) documents h.stored);
}

-- A run, however it ends, keeps at most one row for each document of a source, and an object in the
-- storage under the key of each row that has one.
pub run_sync-IsConsistent :
    (services : Services) (providers : Providers) (store : Store)
    → IsConsistent store.documents store.objects
    → IsConsistent
        (run_sync services providers store).documents
        (run_sync services providers store).objects
run_sync-IsConsistent services providers store h =
    run_sync-keeps IsConsistent deleted-IsConsistent
      (λ row_id doc_id raw source doc documents objects.
        upload-IsConsistent row_id source.type raw doc (key_of source doc_id) documents objects)
      services providers store h
