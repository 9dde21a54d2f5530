-- ===== src/Ingest/Safety.antt =====
-- What a request to `POST /api/v1/events` can change, and when its event is stored.
use openclaw_observatory.Prelude.{ℕ, ◌≡◌, String, List, [], ◌∷◌, ◌++◌, Option, arith, eq_iff}
use openclaw_observatory.Models.Event.{EventIn, EventAccepted, Stamp, from_ingest}
use openclaw_observatory.Auth.{CollectorPrincipal, require_collector}
use openclaw_observatory.Schemas.{Schemas}
use openclaw_observatory.Exec.{ok}
use openclaw_observatory.World.{World}
use openclaw_observatory.Pipeline.Dispatch.{validate}
use openclaw_observatory.Pipeline.Frame.{validate-SameStores, apply-frame}
use openclaw_observatory.Ingest.{ingest_event, post_event}

module _ (schemas : Schemas) where
  ingest-registry :
      (p : CollectorPrincipal) (now : ℕ) (stamp : Stamp) (inbound : EventIn) (w : World)
      → (ingest_event schemas p now stamp inbound w).1.registry ≡ w.registry
  unfolding ingest_event
  ingest-registry p now stamp inbound w =
      grind (arith, validate-SameStores schemas, apply-frame schemas)

  -- No submission to the route, authenticated or not and whatever its outcome, changes the Fleet
  -- Registry.
  pub registry_immutable :
      (bindings : List (String × String)) (api_key : Option String) (now : ℕ) (stamp : Stamp)
      (inbound : EventIn) (w : World)
      → (post_event schemas bindings api_key now stamp inbound w).1.registry ≡ w.registry
  unfolding post_event require_collector
  registry_immutable bindings api_key now stamp inbound w = grind (arith, ingest-registry)

  -- The event is stored before its projection and after its validation.
  pub accepted_is_stored :
      (p : CollectorPrincipal) (now : ℕ) (stamp : Stamp) (inbound : EventIn) (w : World)
      (a : EventAccepted)
      → (ingest_event schemas p now stamp inbound w).0 ≡ ok a
      → ((ingest_event schemas p now stamp inbound w).1.events.events
          ≡ w.events.events ++ from_ingest stamp inbound ∷ [])
        × (a.id ≡ stamp.id)
        × (inbound.collector_id ≡ p.subject)
        × ((validate schemas now inbound w).0 ≡ ok tt)
  unfolding ingest_event
  accepted_is_stored p now stamp inbound w a h =
      grind (arith, validate-SameStores schemas, apply-frame schemas, eq_iff)
