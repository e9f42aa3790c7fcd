-- ===== src/Worker.antt =====
-- The queue worker (backend/app/services/queue_worker.py).
pub mod Transactions
pub mod History
pub mod Recovery
pub mod Reports
pub mod Restart
