-- ===== src/Schemas.antt =====
-- Pydantic is not part of the repository. What `HeartbeatPayload.model_validate` and
-- `MissionUpdate.model_validate` make of a payload is a parameter; `none` is a `ValidationError`.
use openclaw_observatory.Prelude.{Option}
use openclaw_observatory.Json.{Fields}
use openclaw_observatory.Models.Heartbeat.{HeartbeatPayload}
use openclaw_observatory.Models.Mission.{MissionUpdate}

pub record Schemas : Type 0 where
  pub heartbeat_payload : Fields → Option HeartbeatPayload
  pub mission_update : Fields → Option MissionUpdate
