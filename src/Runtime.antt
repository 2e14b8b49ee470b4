-- ===== src/Runtime.antt =====
-- experiments/server/runtime_service.py: the supervisor of the private runtime, over Docker.
pub mod Docker
pub mod Machine
pub mod Rows
pub mod Containers
pub mod Admission
pub mod Lifecycle
pub mod Keeping
pub mod Told
pub mod Steady
pub mod Showing
pub mod Order
pub mod Picking
pub mod Supervision
pub mod Running
pub mod Checking
pub mod Safety
pub mod Waiting
mod Tests
