-- ===== src/Models/Heartbeat.antt =====
-- backend/app/models/heartbeat.py.
use openclaw_observatory.Prelude.{ℕ, String, Option}

abbrev pub heartbeat_event_type : String
heartbeat_event_type = "heartbeat"

pub record HeartbeatPayload : Type 0 where
  pub collector_type : String
  pub collector_version : String
  pub software_version : Option String
  pub uptime_seconds : Option ℕ
  pub failures_total : ℕ
