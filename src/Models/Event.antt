-- ===== src/Models/Event.antt =====
-- backend/app/models/event.py: the wire format, the stored event, and the stamping of one as other.
use openclaw_observatory.Prelude.{ℕ, String}
use openclaw_observatory.Json.{Fields}

pub record EventIn : Type 0 where
  pub collector_id : String
  pub timestamp : ℕ
  pub event_type : String
  pub payload : Fields
  pub schema_version : ℕ

pub record Event : Type 0 where
  pub id : ℕ
  pub collector_id : String
  pub timestamp : ℕ
  pub event_type : String
  pub payload : Fields
  pub schema_version : ℕ
  pub received_at : ℕ

-- What `uuid4()` and `datetime.now(UTC)` return at ingestion.
pub record Stamp : Type 0 where
  pub id : ℕ
  pub received_at : ℕ

unfoldable pub from_ingest : Stamp → EventIn → Event
from_ingest stamp inbound = record {
  id = stamp.id;
  collector_id = inbound.collector_id;
  timestamp = inbound.timestamp;
  event_type = inbound.event_type;
  payload = inbound.payload;
  schema_version = inbound.schema_version;
  received_at = stamp.received_at;
}

pub record EventAccepted : Type 0 where
  pub id : ℕ
  pub received_at : ℕ
  pub status : String
