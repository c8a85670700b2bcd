-- ===== src/Retrieval.antt =====
-- backend/app/retrieval
pub mod Score
pub mod HybridSearch
pub mod CitationBuilder
pub mod Confidence
pub mod Search
pub mod NoResult
pub mod Reranker
pub mod SemanticCache
pub mod AnswerGenerator
pub mod Pipeline
