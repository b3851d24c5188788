-- ===== src/Carbon.antt =====
-- services/gateway/ecoroute/carbon: the readings of a grid's carbon intensity.
pub mod Reading
pub mod Fresh
pub mod Impact
