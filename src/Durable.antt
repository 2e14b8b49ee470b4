-- ===== src/Durable.antt =====
-- tools/sync_spike/durable.py: the fixture state in an SQLite file, and the sync server on top of it.
pub mod Database
pub mod Store
pub mod Server
pub mod Reports
pub mod Publishing
pub mod Persistence
mod Tests
