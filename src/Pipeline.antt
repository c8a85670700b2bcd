-- ===== src/Pipeline.antt =====
-- How a document becomes chunks: backend/app/pipeline.
pub mod Chunker
pub mod VectorIndexer
pub mod Indexer
