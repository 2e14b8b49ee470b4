-- ===== src/Sync.antt =====
-- tools/sync_spike/model.py: the synthetic sync server.
pub mod Snapshot
pub mod State
pub mod Cursor
pub mod Stages
pub mod Handle
pub mod Step
pub mod Invariant
pub mod Binding
pub mod Client
pub mod Paging
pub mod Completion
pub mod FullSync
pub mod Guarantees
pub mod Http
pub mod Access
pub mod Revocation
pub mod Caught
pub mod Answers
mod Tests
