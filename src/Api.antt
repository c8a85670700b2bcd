-- ===== src/Api.antt =====
-- backend/app/api
pub mod Result
pub mod Users
pub mod Roles
pub mod Groups
pub mod Documents
pub mod Server
pub mod Pages
pub mod Sources
pub mod SyncJobs
