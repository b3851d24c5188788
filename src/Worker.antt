-- ===== src/Worker.antt =====
-- services/worker: the queue of durable jobs.
pub mod Jobs
pub mod Execute
pub mod Redelivered
pub mod Retries
pub mod Limits
pub mod Health
pub mod Queue
pub mod Periodic
pub mod Training
pub mod Cleanup
pub mod Capacity
