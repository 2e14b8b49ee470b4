-- ===== src/Install.antt =====
-- experiments/server/private_install_transport.py: a package is sent to a host in chunks and its
-- installation is submitted.
pub mod Tools
pub mod Machine
pub mod Package
pub mod Observing
pub mod Transport
pub mod Growth
pub mod Steady
pub mod Holding
pub mod Placing
pub mod Submission
pub mod Finishing
pub mod Sorted
pub mod Reporting
mod Tests
