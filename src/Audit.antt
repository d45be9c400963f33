-- ===== src/Audit.antt =====
-- The audit layer: canonical payloads, the chain of hashes, and the service that appends to it,
-- verifies it and anchors it.
pub mod Value
pub mod Text
pub mod Canonical
pub mod Json
pub mod Chain
pub mod Members
pub mod Version
pub mod Service
pub mod Chronology
pub mod Recording
pub mod Anchoring
pub mod Ties
mod Tests
