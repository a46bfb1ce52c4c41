-- ===== src/Retention.antt =====
-- compat/ledger_retention.py: the archive of rows that have ended long ago.
pub mod Defs
pub mod Archived
mod Tests
