-- ===== src/Backups.antt =====
-- Backups and their retention (odooctl/services/backup.py).
pub mod Calendar
pub mod Retention
mod Examples
