-- ===== src/Grid.antt =====
-- The grid: the validation contract, the operating limits, and the service that judges a trade.
pub mod Contract
pub mod Policy
pub mod Limits
pub mod Service
pub mod Judging
pub mod Outcomes
pub mod Registry
pub mod Network
pub mod Twin
pub mod Trades
pub mod Transfer
mod Tests
