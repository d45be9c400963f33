-- ===== src/Forecast.antt =====
-- Forecasts: runs of a provider, and the surplus that a site may sell.
pub mod Contract
pub mod Surplus
pub mod Store
pub mod Checks
pub mod History
pub mod Service
pub mod Horizon
pub mod Placing
pub mod Running
pub mod Stuck
mod Tests
