-- ===== src/Missions.antt =====
-- The mission projection of backend/app/services/pipeline.py: what ingestion makes of the records.
pub mod Record
pub mod Step
pub mod Invariant
pub mod History
pub mod Retry
pub mod Interleaving
