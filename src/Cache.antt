-- ===== src/Cache.antt =====
-- What the program keeps in Redis: backend/app/cache.
pub mod Redis
pub mod Keys
pub mod Helpers
pub mod RateLimit
