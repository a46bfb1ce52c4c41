-- ===== src/Cron.antt =====
-- compat/cron_delivery_store.py: the spool of cron reports and the receipts of their delivery.
pub mod Defs
pub mod Deliver
pub mod Drain
pub mod Settled
pub mod Final
mod Tests
