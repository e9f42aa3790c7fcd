-- ===== src/Scheduler.antt =====
-- Which job a worker takes next (`_claim_next` of backend/app/services/queue_worker.py, with
-- backend/app/services/worker_pool.py and backend/app/services/demo_reel_activity.py).
pub mod Pool
pub mod Activity
pub mod Turn
pub mod Claim
pub mod Owners
pub mod Place
pub mod Line
pub mod Served
pub mod Claimed
pub mod Yielding
pub mod Dispatch
pub mod Capacity
