-- ===== src/Models/Inventory.antt =====
-- backend/app/models/inventory.py.
use openclaw_observatory.Prelude.{ℕ, String}
use openclaw_observatory.Json.{Fields}

abbrev pub host_inventory_event_type : String
host_inventory_event_type = "host_inventory"

pub record HostInventoryRecord : Type 0 where
  pub fleet_id : String
  pub payload : Fields
  pub reported_at : ℕ
  pub updated_at : ℕ
