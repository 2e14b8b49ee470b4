-- ===== src/Admission.antt =====
-- experiments/server/santa_admission.py: the admission of sync requests by permits in a shared
-- Redis store.
pub mod Redis
pub mod Scripts
pub mod Identity
pub mod Scrubbing
pub mod Middleware
pub mod Permits
pub mod Upkeep
pub mod Exclusion
mod Tests
mod IdentityTests
