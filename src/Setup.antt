-- ===== src/Setup.antt =====
-- experiments/server/sealed_setup.py and experiments/server/operator_setup_host.py: a setup link,
-- sealed for its recipient, and the host that has it made.
pub mod Kit
pub mod Sealing
pub mod Preparing
pub mod Request
pub mod Envelope
pub mod Agreement
pub mod Sealed
pub mod Answering
pub mod Host
pub mod Tally
pub mod Once
mod Tests
