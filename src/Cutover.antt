-- ===== src/Cutover.antt =====
-- odooctl/odoo/db_swap.py: replacing a live database by a prepared one.
pub mod State
pub mod Names
pub mod Postgres
pub mod Phases
pub mod Reconcile
pub mod Progress
pub mod Promote
pub mod Finalize
pub mod Fence
pub mod Planning
pub mod Swap
pub mod Cluster
mod Examples
