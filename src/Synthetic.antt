-- ===== src/Synthetic.antt =====
-- compat/crosssource.py: the run identifiers that the stream route mints.
pub mod Defs
pub mod Room
pub mod Grace
pub mod Popped
pub mod Evicted
mod Tests
