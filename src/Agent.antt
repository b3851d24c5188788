-- ===== src/Agent.antt =====
-- services/node-agent: the controls of a host.
pub mod Transaction
pub mod Rollback
pub mod Atomic
pub mod Restoration
pub mod Simulator
pub mod Loop
pub mod Watchdog
pub mod Silence
pub mod Limits
pub mod Capped
pub mod Concurrency
