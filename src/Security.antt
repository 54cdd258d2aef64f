-- ===== src/Security.antt =====
-- odooctl/security: who may do what.
pub mod Principals
pub mod Rbac
pub mod Redaction
pub mod Sessions
pub mod Tokens
mod Examples
