-- ===== src/Cache.antt =====
-- services/gateway/ecoroute/cache: the stored answers.
pub mod Entries
pub mod Unique
pub mod Match
pub mod Refined
