-- ===== src/Tasks.antt =====
-- The tasks of the workers: backend/app/tasks.
pub mod Celery
pub mod Ingest
pub mod Reembed
pub mod Sync
