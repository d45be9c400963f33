-- ===== src/Pricing.antt =====
-- Pricing: the contract, the component formula and its engine, and the check of a price.
pub mod Contract
pub mod Policy
pub mod Engine
pub mod Check
pub mod Store
pub mod Assembly
pub mod Service
pub mod Breakdowns
pub mod Applying
pub mod Refusals
pub mod Quoting
pub mod Charges
pub mod Caution
pub mod Standard
mod Tests
