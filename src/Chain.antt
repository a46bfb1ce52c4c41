-- ===== src/Chain.antt =====
-- compat/self_wake.py: the chain of the self-wakes of a session, its limit and its fuse.
pub mod Defs
pub mod Human
pub mod Rows
pub mod Fused
pub mod Limit
pub mod Order
pub mod Pages
mod Tests
