-- ===== src/Pipeline.antt =====
-- backend/app/services/pipeline.py: the handler of each event type with server-side semantics.
-- `validate` runs before the event is stored, `apply` after.
pub mod Heartbeat
pub mod Inventory
pub mod Mission
pub mod Dispatch
pub mod Frame
