-- ===== src/Models.antt =====
-- The data of backend/app/models: events, heartbeats, missions, fleet assets, host inventories.
-- An instant is the number of microseconds since the year 1, as `datetime` holds it in UTC; the
-- difference of two instants is a signed number of microseconds.
pub mod Event
pub mod Heartbeat
pub mod Inventory
pub mod Mission
pub mod Registry
pub mod Telemetry
