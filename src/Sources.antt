-- ===== src/Sources.antt =====
-- Where documents come from: backend/app/sources.
pub mod Base
pub mod Sync
pub mod Http
pub mod GoogleDrive
pub mod Notion
pub mod TokenBucket
