-- ===== src/Wake.antt =====
-- compat/auto_wake_store.py: the ledger of the wakes that reports fire.
pub mod Defs
pub mod Keys
pub mod Reports
pub mod Admit
pub mod Dispatch
pub mod History
pub mod Grown
pub mod Edges
pub mod Moves
pub mod Refused
pub mod Once
pub mod Limits
pub mod Release
mod Tests
