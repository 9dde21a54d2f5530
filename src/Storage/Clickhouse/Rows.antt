-- ===== src/Storage/Clickhouse/Rows.antt =====
-- The mission, inventory and event rows of backend/app/storage/clickhouse.py and their conversions.
-- `dumps` and `loads` are `json.dumps` and `json.loads`.
use openclaw_observatory.Prelude.Options.{◌>>=◌}
use openclaw_observatory.Prelude.{ℕ, String, Option, some}
use openclaw_observatory.Json.{Fields}
use openclaw_observatory.Models.Event.{Event}
use openclaw_observatory.Models.Inventory.{HostInventoryRecord}
use openclaw_observatory.Models.Mission.{MissionRecord}
use openclaw_observatory.Storage.Clickhouse.Assets.{or_empty, or_none}

-- `_MISSION_COLUMNS`
pub record MissionRow : Type 0 where
  pub mission_id : String
  pub title : String
  pub assigned_agent : String
  pub state : String
  pub created_at : ℕ
  pub started_at : Option ℕ
  pub completed_at : Option ℕ
  pub pr_ref : String
  pub commit_sha : String
  pub updated_at : ℕ
  pub revision : ℕ

-- the row of `upsert_mission`
unfoldable pub mission_row : MissionRecord → ℕ → MissionRow
mission_row r revision = record {
  mission_id = r.mission_id;
  title = r.title;
  assigned_agent = or_empty r.assigned_agent;
  state = r.state;
  created_at = r.created_at;
  started_at = r.started_at;
  completed_at = r.completed_at;
  pr_ref = or_empty r.pr_ref;
  commit_sha = or_empty r.commit_sha;
  updated_at = r.updated_at;
  revision = revision;
}

unfoldable pub row_to_mission : MissionRow → MissionRecord
row_to_mission row = record {
  mission_id = row.mission_id;
  title = row.title;
  assigned_agent = or_none row.assigned_agent;
  state = row.state;
  created_at = row.created_at;
  started_at = row.started_at;
  completed_at = row.completed_at;
  pr_ref = or_none row.pr_ref;
  commit_sha = or_none row.commit_sha;
  updated_at = row.updated_at;
}

-- `_INVENTORY_COLUMNS`
pub record InventoryRow : Type 0 where
  pub fleet_id : String
  pub payload : String
  pub reported_at : ℕ
  pub updated_at : ℕ
  pub revision : ℕ

-- `_EVENT_COLUMNS`; an id is the number of the UUID, which the text and the driver give back
pub record EventRow : Type 0 where
  pub id : ℕ
  pub collector_id : String
  pub timestamp : ℕ
  pub event_type : String
  pub payload : String
  pub schema_version : ℕ
  pub received_at : ℕ

module _ (dumps : Fields → String) (loads : String → Option Fields) where
  -- the row of `upsert_inventory`
  unfoldable pub inventory_row : HostInventoryRecord → ℕ → InventoryRow
  inventory_row r revision = record {
    fleet_id = r.fleet_id;
    payload = dumps r.payload;
    reported_at = r.reported_at;
    updated_at = r.updated_at;
    revision = revision;
  }

  unfoldable pub row_to_inventory : InventoryRow → Option HostInventoryRecord
  row_to_inventory row = do
    payload ← loads row.payload
    some (record {
      fleet_id = row.fleet_id;
      payload = payload;
      reported_at = row.reported_at;
      updated_at = row.updated_at;
    })

  -- the row of `insert_event`
  unfoldable pub event_row : Event → EventRow
  event_row e = record {
    id = e.id;
    collector_id = e.collector_id;
    timestamp = e.timestamp;
    event_type = e.event_type;
    payload = dumps e.payload;
    schema_version = e.schema_version;
    received_at = e.received_at;
  }

  unfoldable pub row_to_event : EventRow → Option Event
  row_to_event row = do
    payload ← loads row.payload
    some (record {
      id = row.id;
      collector_id = row.collector_id;
      timestamp = row.timestamp;
      event_type = row.event_type;
      payload = payload;
      schema_version = row.schema_version;
      received_at = row.received_at;
    })
