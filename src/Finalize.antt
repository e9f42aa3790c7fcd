-- ===== src/Finalize.antt =====
-- The transaction that stores the terminal result of a generation (`_commit_finalization` of
-- backend/app/services/queue_worker.py).
pub mod Record
pub mod Retention
pub mod Commit
pub mod Outcome
pub mod Retry
pub mod Images
pub mod Presented
