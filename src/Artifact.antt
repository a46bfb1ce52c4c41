-- ===== src/Artifact.antt =====
-- compat/artifact_quota.py: reservations of live bytes for browser artifacts.
pub mod Defs
pub mod Sums
pub mod Limits
mod Tests
