-- ===== src/Llm.antt =====
-- backend/app/llm
pub mod CircuitBreaker
pub mod Client
