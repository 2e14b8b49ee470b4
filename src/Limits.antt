-- ===== src/Limits.antt =====
-- experiments/server/santa_request_limits.py: the bounded JSON input of the sync views.
pub mod Config
pub mod Depth
pub mod Nesting
pub mod Decode
pub mod Bounds
pub mod Statuses
mod Tests
