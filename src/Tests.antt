-- ===== src/Tests.antt =====
-- Tests on concrete inputs, and the instances of the theorems.
mod Llm
mod Retrieval
mod Api
mod Pages
mod Connectors
mod Client
mod Jobs
mod Stores
mod Auth
mod SignIn
mod Queries
mod Sources
mod Pipeline
mod Indexing
