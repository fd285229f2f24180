-- ===== src/Security.antt =====
-- internal/security: redaction of sensitive values, and the limiters.
pub mod Pattern
pub mod Redaction
pub mod RateLimit
