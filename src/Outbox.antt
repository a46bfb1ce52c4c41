-- ===== src/Outbox.antt =====
-- compat/crosssource.py: the spool of messages for sessions of other sources, and its delivery.
pub mod Defs
pub mod Bridge
pub mod Turns
pub mod Once
pub mod Fold
pub mod Delivery
pub mod Accepted
mod Tests
