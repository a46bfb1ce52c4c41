-- ===== src/Notify.antt =====
-- compat/notification_store.py: the ledger of notification events, deliveries and acknowledgements.
pub mod Defs
pub mod Events
pub mod Deliveries
pub mod History
pub mod Untouched
pub mod Feed
pub mod Observed
pub mod Once
pub mod Claims
pub mod Rightful
pub mod Reports
mod Tests
