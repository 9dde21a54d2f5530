-- ===== src/Pipeline/Frame.antt =====
-- What the handlers leave alone.
use openclaw_observatory.Prelude.{ℕ, ◌≡◌, Option, none, some, arith}
use openclaw_observatory.Models.Event.{Event, EventIn}
use openclaw_observatory.Schemas.{Schemas}
use openclaw_observatory.Storage.Keyed.{get_asset, get_mission, upsert_mission, upsert_inventory}
use openclaw_observatory.World.{World}
use openclaw_observatory.Pipeline.Heartbeat.{heartbeat_validate, heartbeat_apply}
use openclaw_observatory.Pipeline.Inventory.{inventory_validate, inventory_apply}
use openclaw_observatory.Pipeline.Mission.{mission_validate, mission_apply}
use openclaw_observatory.Pipeline.Dispatch.{
  Handler, heartbeat_handler, mission_update_handler, host_inventory_handler, handler_validate,
  handler_apply, validate, apply, handler_for,
}

-- The two worlds hold the same stores.
pub record SameStores (w w' : World) : Type 0 where
  pub events : w'.events ≡ w.events
  pub registry : w'.registry ≡ w.registry
  pub missions : w'.missions ≡ w.missions
  pub inventories : w'.inventories ≡ w.inventories

module _ (schemas : Schemas) where
  handler_validate-SameStores :
      (h : Option Handler) (now : ℕ) (inbound : EventIn) (w : World)
      → SameStores w (handler_validate schemas h now inbound w).1
  unfolding handler_validate heartbeat_validate mission_validate inventory_validate get_asset
      get_mission
  handler_validate-SameStores none now inbound w = ground arith
  handler_validate-SameStores (some heartbeat_handler) now inbound w = ground arith
  handler_validate-SameStores (some mission_update_handler) now inbound w = ground arith
  handler_validate-SameStores (some host_inventory_handler) now inbound w = ground arith

  -- Validation changes no store, whether it accepts, rejects or fails.
  pub validate-SameStores :
      (now : ℕ) (inbound : EventIn) (w : World) → SameStores w (validate schemas now inbound w).1
  unfolding validate
  validate-SameStores now inbound w =
      handler_validate-SameStores (handler_for inbound.event_type) now inbound w

  handler_apply-registry :
      (h : Option Handler) (event : Event) (w : World)
      → let w' = (handler_apply schemas h event w).1 in
        (w'.registry ≡ w.registry) × (w'.events ≡ w.events) × (w'.audit ≡ w.audit)
  unfolding handler_apply heartbeat_apply mission_apply inventory_apply get_mission upsert_mission
      upsert_inventory
  handler_apply-registry none event w = ground arith
  handler_apply-registry (some heartbeat_handler) event w = ground arith
  handler_apply-registry (some mission_update_handler) event w = ground arith
  handler_apply-registry (some host_inventory_handler) event w = ground arith

  -- A projection touches neither the registry nor the event stream nor the audit log.
  pub apply-frame :
      (event : Event) (w : World)
      → let w' = (apply schemas event w).1 in
        (w'.registry ≡ w.registry) × (w'.events ≡ w.events) × (w'.audit ≡ w.audit)
  unfolding apply
  apply-frame event w = handler_apply-registry (handler_for event.event_type) event w
