-- ===== src/Server/Queue.antt =====
-- The verification queue seen as a whole: which activities have a job, over the operations of
-- activities-ingest-repo.ts, activities-verify-repo.ts, agents-repo.ts, purge-repo.ts and the CLI.
pub mod Coherence
pub mod Ingested
pub mod Verdicts
pub mod Claims
pub mod Operators
pub mod Transitions
pub mod Histories
