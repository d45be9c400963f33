-- ===== src/Settlement.antt =====
-- Settlement: the contract, the reconciliation and accounting rules, and the service that records
-- them.
pub mod Contract
pub mod Policy
pub mod Calculator
pub mod Reconciling
pub mod Store
pub mod Service
pub mod Accounting
pub mod Ledger
pub mod Outcomes
mod Tests
