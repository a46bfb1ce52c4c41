-- ===== src/Approval.antt =====
-- compat/approval_inbox.py: the registry of the pending approvals of a run.
pub mod Defs
pub mod Inbox
pub mod Capture
pub mod Answers
pub mod Buckets
pub mod Decided
pub mod Final
pub mod Bounds
pub mod Runs
pub mod Settled
pub mod Contract
pub mod Choices
pub mod Checked
mod Tests
