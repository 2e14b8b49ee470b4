-- ===== src/Recovery.antt =====
-- experiments/server/operator_recovery.py: the bootstrap and the recovery of a local operator.
pub mod Accounts
pub mod Access
pub mod Effects
pub mod Containment
mod Tests
