-- ===== src/Db.antt =====
-- The tables of backend/app/db (backend/alembic/versions/2026_06_14_0001_initial_schema.py) and the
-- enumerations of backend/app/db/enums.py. A table is the list of its rows; a row has the columns
-- that the handlers read or write. Keys are texts. The M:N tables are lists of pairs.
-- `object_key` stands for that entry of the column `extra`.
pub mod Table
use know_gate.Prelude.{ℕ, String, Option, List, Bool, true, false}

pub data UserStatus : Type 0 where
  active suspended deleted : UserStatus

pub data DocumentStatus : Type 0 where
  discovered indexing active outdated deprecated archived deleted : DocumentStatus

pub record User : Type 0 where
  pub id : String
  pub email : String
  pub display_name : String
  pub password_hash : Option String
  pub language_pref : String
  pub status : UserStatus

pub record Role : Type 0 where
  pub id : String
  pub name : String
  pub description : Option String
  pub permissions : List String

pub record AccessGroup : Type 0 where
  pub id : String
  pub name : String
  pub description : Option String
  pub created_by : String

pub record Document : Type 0 where
  pub id : String
  pub source : String
  pub source_id : String
  pub title : String
  pub owner : Option String
  pub mime_type : Option String
  pub size_bytes : Option ℕ
  pub status : DocumentStatus
  pub object_key : Option String
  pub indexed_at : Option ℕ
  pub error_message : Option String

pub record Database : Type 0 where
  pub users : List User
  pub roles : List Role
  pub user_roles : List (String × String)
  pub access_groups : List AccessGroup
  pub user_groups : List (String × String)
  pub documents : List Document
  pub document_groups : List (String × String)

abbrev pub is_active : UserStatus → Bool
is_active UserStatus.active = true
is_active _ = false
