-- ===== src/Operator.antt =====
-- experiments/server/operator_mfa.py: multi-factor sign-in of operators, over a web framework, a
-- database of accounts and the security store.
pub mod Framework
pub mod Accounts
pub mod Claims
pub mod Factor
pub mod Middleware
pub mod Protection
pub mod Budget
pub mod SingleUse
pub mod Proofs
mod Tests
