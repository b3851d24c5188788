-- ===== src/Gateway.antt =====
-- gateway/ecoroute/api/gateway.py: what happens to a chat request after its features are known.
pub mod Ledger
pub mod Upstream
pub mod Context
pub mod Settle
pub mod Complete
pub mod Live
pub mod Relay
pub mod Stream
pub mod Route
pub mod Concluded
pub mod Ending
pub mod Completing
pub mod Streaming
pub mod Streamed
pub mod Served
pub mod Liveness
pub mod Forwarded
pub mod Stale
