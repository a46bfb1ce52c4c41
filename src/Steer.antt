-- ===== src/Steer.antt =====
-- compat/steer_store.py: the durable inbox of steers, the texts that a user sends into a run.
-- `Defs` has the tables and the tests of the WHERE clauses; `Runs`, `Rows`, `Admit`, `Handoff`,
-- `Batches`, `Views` and `Prune` have the operations; the others prove.
pub mod Defs
pub mod Runs
pub mod Rows
pub mod Admit
pub mod Handoff
pub mod Batches
pub mod Views
pub mod Next
pub mod Numbered
pub mod Sequence
pub mod Pages
pub mod Prune
pub mod History
pub mod Effects
pub mod Bounds
pub mod Once
pub mod Claim
pub mod Seal
mod Tests
