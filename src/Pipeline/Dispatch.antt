-- ===== src/Pipeline/Dispatch.antt =====
-- `EventPipeline` and `build_pipeline` of backend/app/services/pipeline.py.
use openclaw_observatory.Prelude.{ℕ, String, Option, none, some, List, [], ◌∷◌}
use openclaw_observatory.Prelude.Dict.{Dict, lookup, insert}
use openclaw_observatory.Models.Event.{Event, EventIn}
use openclaw_observatory.Models.Heartbeat.{heartbeat_event_type}
use openclaw_observatory.Models.Inventory.{host_inventory_event_type}
use openclaw_observatory.Schemas.{Schemas}
use openclaw_observatory.Exec.{pure}
use openclaw_observatory.World.{App}
use openclaw_observatory.Pipeline.Heartbeat.{heartbeat_validate, heartbeat_apply}
use openclaw_observatory.Pipeline.Inventory.{inventory_validate, inventory_apply}
use openclaw_observatory.Pipeline.Mission.{mission_validate, mission_apply}

abbrev pub mission_update_event_type : String
mission_update_event_type = "mission_update"

pub data Handler : Type 0 where
  heartbeat_handler mission_update_handler host_inventory_handler : Handler

abbrev pub event_type_of : Handler → String
event_type_of heartbeat_handler = heartbeat_event_type
event_type_of mission_update_handler = mission_update_event_type
event_type_of host_inventory_handler = host_inventory_event_type

-- `{handler.event_type: handler for handler in handlers}`
unfoldable pub event_pipeline : List Handler → Dict Handler → Dict Handler
unfolding insert
event_pipeline [] d = d
event_pipeline (h ∷ hs) d = event_pipeline hs (insert (event_type_of h) h d)

unfoldable pub build_pipeline : Dict Handler
unfolding event_pipeline
build_pipeline =
    event_pipeline (heartbeat_handler ∷ mission_update_handler ∷ host_inventory_handler ∷ []) []

unfoldable pub handler_for : String → Option Handler
unfolding build_pipeline lookup
handler_for event_type = lookup event_type build_pipeline

module _ (schemas : Schemas) where
  unfoldable pub handler_validate : Option Handler → ℕ → EventIn → App (Unit {0})
  handler_validate none now inbound = pure tt
  handler_validate (some heartbeat_handler) now inbound = heartbeat_validate schemas now inbound
  handler_validate (some mission_update_handler) now inbound = mission_validate schemas inbound
  handler_validate (some host_inventory_handler) now inbound = inventory_validate inbound

  unfoldable pub handler_apply : Option Handler → Event → App (Unit {0})
  handler_apply none event = pure tt
  handler_apply (some heartbeat_handler) event = heartbeat_apply schemas event
  handler_apply (some mission_update_handler) event = mission_apply schemas event
  handler_apply (some host_inventory_handler) event = inventory_apply event

  unfoldable pub validate : ℕ → EventIn → App (Unit {0})
  validate now inbound = handler_validate (handler_for inbound.event_type) now inbound

  unfoldable pub apply : Event → App (Unit {0})
  apply event = handler_apply (handler_for event.event_type) event
