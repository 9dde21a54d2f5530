-- ===== src/Pipeline/Inventory.antt =====
-- `HostInventoryHandler` of backend/app/services/pipeline.py. A payload is a JSON object by its type.
use openclaw_observatory.Prelude.{not, is_some}
use openclaw_observatory.Json.{is_empty}
use openclaw_observatory.Models.Event.{Event, EventIn}
use openclaw_observatory.Storage.Keyed.{get_asset, upsert_inventory}
use openclaw_observatory.Exec.{pipeline_rejection, raise_if, ◌>>=◌, ◌>>◌}
use openclaw_observatory.World.{App, reads, on_inventories}

unfoldable pub inventory_validate : EventIn → App (Unit {0})
inventory_validate inbound = do
  raise_if (is_empty inbound.payload) (pipeline_rejection 422 "validation_error")
  asset ← reads (λ w. get_asset inbound.collector_id w.registry)
  raise_if (not (is_some asset)) (pipeline_rejection 403 "unknown_fleet_id")

unfoldable pub inventory_apply : Event → App (Unit {0})
inventory_apply event = on_inventories (
    upsert_inventory (record {
      fleet_id = event.collector_id;
      payload = event.payload;
      reported_at = event.timestamp;
      updated_at = event.received_at;
    }))
