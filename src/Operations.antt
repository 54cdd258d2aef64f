-- ===== src/Operations.antt =====
-- Durable operations (odooctl/operations/).
pub mod Models
pub mod Audit
pub mod Locks
pub mod Store
pub mod Engine
mod Examples
