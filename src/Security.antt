-- ===== src/Security.antt =====
-- packages/core/security: what protects the stored credentials.
pub mod Crypto
