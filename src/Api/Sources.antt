-- ===== src/Api/Sources.antt =====
-- backend/app/api/v1/sources.py: the sources and the tasks that a trigger puts in the queue of the
-- broker. A task is the id of its source with `triggered_by`. Times are in seconds.
-- The last error of a source and the times of its row are left out.
pub mod Triggers
use know_gate.Prelude.{
  ℕ, zero, suc, ◌+◌, String, Bool, true, false, not, ◌&&◌, ◌||◌, Option, none, some, List, [], ◌∷◌,
  ◌++◌, str_eq, ltb, if◌then◌else◌,
}
use know_gate.Prelude.Sort.{sort_desc}
use know_gate.Db.Table.{find?, select, update_where}
use know_gate.Auth.Permissions
use know_gate.Auth.Permissions.{CurrentUser}
use know_gate.Api.Result.{
  Result, ok, err, api_error, reject, or_raise, require_permission, not_found, conflict,
  rate_limited, ◌>>=◌, ◌>>◌,
}
use know_gate.Api.Users.{or_keep}
use know_gate.Sources.Sync.{SourceStatus}
use know_gate.Tasks.Sync.{JobRow}

pub record SourceRow : Type 0 where
  pub id : String
  pub name : String
  pub type : String
  pub config_encrypted : String
  pub status : SourceStatus
  pub last_sync_at : Option ℕ
  pub created_by : String

pub record SourcesDb : Type 0 where
  pub sources : List SourceRow
  pub jobs : List JobRow
  pub queue : List (String × String)

abbrev pub find_source : String → SourcesDb → Option SourceRow
find_source source_id db = find? (λ s. str_eq s.id source_id) db.sources

-- The name, the type and the configuration as JSON text.
pub record SourceCreate : Type 0 where
  pub name : String
  pub type : String
  pub config : String

-- The id of the row is drawn; `encrypt` is `encrypt_str` with the key of the settings.
unfoldable pub create_source :
    (String → String)
    → String
    → CurrentUser
    → SourceCreate
    → SourcesDb
    → Result (SourceRow × SourcesDb)
create_source encrypt new_id user body db = do
  require_permission user Permissions.manage_sources
  ok (new_source, record db { sources = db.sources ++ new_source ∷ [] })
  where
    new_source : SourceRow
    new_source = record {
      id = new_id;
      name = body.name;
      type = body.type;
      config_encrypted = encrypt body.config;
      status = SourceStatus.active;
      last_sync_at = none;
      created_by = user.id;
    }

unfoldable pub list_sources :
    CurrentUser → (SourceRow → SourceRow → Bool) → SourcesDb → Result (List SourceRow)
list_sources user older_or_same db = do
  require_permission user Permissions.manage_sources
  ok (sort_desc older_or_same db.sources)

unfoldable pub get_source : CurrentUser → String → SourcesDb → Result SourceRow
get_source user source_id db = do
  require_permission user Permissions.manage_sources
  or_raise (find_source source_id db) (api_error 404 not_found)

pub record SourceUpdate : Type 0 where
  pub name : Option String
  pub status : Option SourceStatus

abbrev pub apply_source_update : SourceUpdate → SourceRow → SourceRow
apply_source_update body s = record s {
  name = or_keep body.name s.name;
  status = or_keep body.status s.status;
}

abbrev pub write_source : String → (SourceRow → SourceRow) → SourcesDb → SourcesDb
write_source source_id f db = record db {
  sources = update_where (λ s. str_eq s.id source_id) f db.sources;
}

unfoldable pub update_source :
    CurrentUser → String → SourceUpdate → SourcesDb → Result (SourceRow × SourcesDb)
update_source user source_id body db = do
  require_permission user Permissions.manage_sources
  src ← or_raise (find_source source_id db) (api_error 404 not_found)
  ok (apply_source_update body src, write_source source_id (apply_source_update body) db)

abbrev pub archive : SourceRow → SourceRow
archive s = record s { status = SourceStatus.archived }

unfoldable pub delete_source : CurrentUser → String → SourcesDb → Result SourcesDb
delete_source user source_id db = do
  require_permission user Permissions.manage_sources
  src ← or_raise (find_source source_id db) (api_error 404 not_found)
  ok (write_source source_id archive db)

-- `src.status in (ACTIVE, AUTH_FAILED)`
abbrev pub can_sync : SourceStatus → Bool
can_sync SourceStatus.active = true
can_sync SourceStatus.auth_failed = true
can_sync SourceStatus.paused = false
can_sync SourceStatus.archived = false

-- A sync ran in the last 30 seconds.
abbrev pub is_cooling : ℕ → Option ℕ → Bool
is_cooling now none = false
is_cooling now (some last) = ltb now (last + 30)

abbrev pub enqueue_sync : String → String → SourcesDb → SourcesDb
enqueue_sync source_id triggered_by db = record db {
  queue = db.queue ++ (source_id, triggered_by) ∷ [];
}

unfoldable pub trigger_sync : CurrentUser → String → ℕ → SourcesDb → Result SourcesDb
trigger_sync user source_id now db = do
  require_permission user Permissions.manage_sources
  src ← or_raise (find_source source_id db) (api_error 404 not_found)
  reject (not (can_sync src.status)) (api_error 409 conflict)
  reject (is_cooling now src.last_sync_at) (api_error 429 rate_limited)
  ok (enqueue_sync source_id "manual" db)
