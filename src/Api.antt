-- ===== src/Api.antt =====
-- The HTTP routes on operations (odooctl/api/routes_operations.py): how an operation is queued and
-- cancelled.
pub mod Params
pub mod Enqueue
pub mod Cancel
pub mod Events
mod Examples
