-- ===== src/Lib.antt =====
-- KnowGate, the permission-aware search and question answering service of backend/app (Python),
-- as definitions that follow the code and theorems about them.
--
-- Parts, and the file that models each:
-- - Llm/CircuitBreaker: the class `CircuitBreaker` of backend/app/llm/circuit_breaker.py. Each method
--   is a function from the object to the new object; a history of calls is a list of events.
-- - Retrieval/HybridSearch: `SearchCandidate` and `merge_rrf` of
--   backend/app/retrieval/hybrid_search.py, with the two dicts of the code kept apart.
-- - Retrieval/Search: `search_vector`, `search_keyword`, `hydrate_text_from_db` and
--   `HybridSearcher.search` of the same file, over the tables and over Qdrant.
-- - Retrieval/CitationBuilder: backend/app/retrieval/citation_builder.py.
-- - Retrieval/Confidence: `_confidence_from_score` of backend/app/retrieval/pipeline.py.
-- - Retrieval/Reranker, Retrieval/NoResult, Retrieval/AnswerGenerator, Retrieval/SemanticCache:
--   backend/app/retrieval/reranker.py, no_result.py, answer_generator.py, and cache.py with
--   query_embedder.py.
-- - Retrieval/Pipeline: backend/app/retrieval/pipeline.py, and the conversion of a result to a response
--   in backend/app/api/v1/query.py. A run takes the state (the store of Redis, the table of queries)
--   and gives the new one beside its result.
-- - Db: the tables of backend/alembic/versions/2026_06_14_0001_initial_schema.py that the handlers
--   use, and (Db/Table) the SQL statements on them. A database is a record of lists of rows.
-- - Auth/Permissions: backend/app/auth/permissions.py, roles and what they permit.
-- - Cache: backend/app/cache/helpers.py and keys.py. Redis is an interface (Cache/Redis,
--   Cache/RateLimit): a type of stores with the commands and their documented laws. Each command
--   takes the time, so that keys expire by themselves.
-- - Auth/Jwt, Auth/Session: backend/app/auth/jwt.py over an interface of PyJWT, `get_current_user`, and
--   the endpoints refresh and logout of backend/app/api/v1/auth.py.
-- - Auth/MagicLink, Auth/Password, Auth/Bootstrap, Auth/Oauth: the other endpoints of that file, with
--   backend/app/auth/magic_link.py, password.py and oauth.py. Texts that are drawn at random are
--   arguments, and so is what an OAuth provider answers.
-- - Api/Users, Api/Roles, Api/Groups, Api/Documents: the handlers of backend/app/api/v1/users.py,
--   roles.py, groups.py and documents.py, of the same names. A handler takes the caller and the
--   database and ends in a response with the new database, or in an error (Api/Result).
-- - Api/Pages: backend/app/api/pagination.py and the query of the list endpoints, with a client that
--   follows the cursors (Api/Pages/Cursors has their text, over base64 and JSON); Api/Documents/Listing: `list_documents`, whose join with the groups comes
--   before its limit. The table does not change from one page to the next.
-- - Api/Server: requests answered one after the other. That handlers of two requests interleave
--   within their transactions is not modelled.
-- - Sources/Base, Sources/Sync: backend/app/sources/base.py and sync.py, one run of the sync engine
--   over a connector, a storage and a broker that it is given.
-- - Sources/Notion with Sources/TokenBucket, Sources/GoogleDrive: the connectors of
--   backend/app/sources/notion.py and google_drive.py, over the answers of the two APIs.
-- - Llm/Client: backend/app/llm/client.py, and its use of the breaker.
-- - Pipeline/Chunker: backend/app/pipeline/chunker.py and `count_tokens` of tokenizer.py, over an
--   encoder that it is given.
-- - Pipeline/Indexer, Pipeline/VectorIndexer: `ingest_document` of backend/app/pipeline/indexer.py, each
--   branch with what it has written, and `upsert_chunks_bulk` of backend/app/vector/indexer.py.
-- - Tasks: `ingest_doc_task`, `reembed_all_task` and `reembed_one_task` of backend/app/tasks/ingest.py, and
--   backend/app/tasks/sync.py. A task is one attempt; Celery, which decides on another one, is an
--   interface (Tasks/Celery).
-- - Api/Sources, Api/SyncJobs: backend/app/api/v1/sources.py, and of sync_jobs.py one job, its retry and
--   the stream of its progress. A trigger and a retry put a task in the queue of the broker.
-- Prelude holds what all share (tests on numbers, lists, Python's dicts and its stable sort), Tests
-- the runs on concrete inputs and the instances of the theorems.
--
-- Numbers are natural numbers. Scores are floats in the code: here they are any type with the
-- operations that the code uses (Retrieval/Score), with the order laws of IEEE arithmetic without
-- NaN as hypotheses. Times are ticks of the clock, passed in as arguments. Loops are recursions on
-- lists, but for the writing and the embedding in batches, which have as many rounds as fuel as there
-- are points or chunks, and this is shown to be enough. Logging and metrics are left out. An exception of
-- Qdrant or of the reranker ends a run of the query pipeline, and a batch that Qdrant refuses ends a run
-- of the indexer after the batches before it.
--
-- Not modelled: the prompt of the LLM and the detection of a question's language, which the pipeline
-- takes as arguments; the lists of roles, groups, sync jobs and the audit log; the endpoints of
-- queries but for their answer, of settings and of feedback; the hot queries of the cache; and, since
-- they are input and output or glue over other libraries, encryption, storage, configuration,
-- middleware, the audit log, the command line and the frontend.
pub mod Api
pub mod Auth
pub mod Cache
pub mod Db
pub mod Llm
pub mod Pipeline
pub mod Prelude
pub mod Retrieval
pub mod Sources
pub mod Tasks
pub mod Tests
