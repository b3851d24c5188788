-- ===== src/Safety.antt =====
-- gateway/ecoroute/routing/safety.py: redaction, and the normalized features of a request.
pub mod Luhn
pub mod Redact
pub mod Normalize
pub mod Cover
