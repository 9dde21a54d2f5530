-- ===== src/Models/Telemetry.antt =====
-- backend/app/models/telemetry.py.
use openclaw_observatory.Prelude.{ℕ, String, List, [], ◌∷◌}
use openclaw_observatory.Json.{Fields}
use openclaw_observatory.Models.Event.{Event}

abbrev pub docker_status_event_type : String
docker_status_event_type = "docker_status"

abbrev pub exposed_telemetry_types : List String
exposed_telemetry_types = docker_status_event_type ∷ []

pub record TelemetrySnapshot : Type 0 where
  pub fleet_id : String
  pub event_type : String
  pub timestamp : ℕ
  pub received_at : ℕ
  pub schema_version : ℕ
  pub payload : Fields

unfoldable pub from_event : String → Event → TelemetrySnapshot
from_event fleet_id event = record {
  fleet_id = fleet_id;
  event_type = event.event_type;
  timestamp = event.timestamp;
  received_at = event.received_at;
  schema_version = event.schema_version;
  payload = event.payload;
}
