-- ===== src/Telemetry.antt =====
-- Telemetry: the classification of a reading and its ingestion.
pub mod Contract
pub mod Quality
pub mod Outcome
pub mod Staged
pub mod Service
pub mod Queries
pub mod Series
pub mod Stages
pub mod Staging
pub mod Loop
pub mod Context
pub mod Batch
pub mod Storing
pub mod Gaps
mod Tests
