-- ===== src/Identity.antt =====
-- Identity: the users, what they own, and what they may trade.
pub mod Vocabulary
pub mod Eligibility
pub mod Store
pub mod Service
pub mod Evidence
pub mod Holdings
pub mod Sellers
pub mod Registration
mod Tests
