-- ===== src/Market.antt =====
-- The market: its vocabulary, the order book and the matching contract, the clearing price, the
-- matching engine, and the service around them.
pub mod Vocabulary
pub mod Book
pub mod Price
pub mod Engine
pub mod Boundary
pub mod Store
pub mod Service
mod Tests
