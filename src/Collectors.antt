-- ===== src/Collectors.antt =====
-- The collectors of collectors/observatory_collectors: delivery, scheduling and what they produce.
pub mod Client
pub mod Runner
pub mod Agent
pub mod Inventory
pub mod Docker
pub mod Metrics
pub mod Configuration
