-- ===== src/Routing.antt =====
-- gateway/ecoroute/routing: the choice of an endpoint for a request.
pub mod Candidate
pub mod Exclusion
pub mod Ranking
pub mod Selection
pub mod Admission
pub mod Soundness
pub mod Totality
pub mod Caching
pub mod Decision
pub mod Classifier
pub mod Guards
pub mod Quality
pub mod Accepted
