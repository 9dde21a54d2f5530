-- ===== src/Ingest/Outcomes.antt =====
-- The answers of `POST /api/v1/events`, branch by branch.
use openclaw_observatory.Prelude.{
  ℕ, ◌+◌, ◌≤◌, ◌≡◌, refl, true, false, [], ◌∷◌, ◌++◌, some, arith, eq_iff, Option-cases, inl, inr,
  ◌↔◌,
}
use openclaw_observatory.Prelude.Dict.{lookup}
use openclaw_observatory.Models.Event.{EventIn, Stamp, from_ingest}
use openclaw_observatory.Models.Registry.{FleetAsset}
use openclaw_observatory.Models.Heartbeat.{heartbeat_event_type, HeartbeatPayload}
use openclaw_observatory.Models.Mission.{MissionUpdate, is_valid_transition}
use openclaw_observatory.Storage.Keyed.{get_asset, get_mission}
use openclaw_observatory.Auth.{CollectorPrincipal}
use openclaw_observatory.Schemas.{Schemas}
use openclaw_observatory.Exec.{ok, err, http_exception, storage_error, pipeline_rejection}
use openclaw_observatory.World.{World}
use openclaw_observatory.Pipeline.Heartbeat.{heartbeat_validate}
use openclaw_observatory.Pipeline.Mission.{mission_validate, known}
use openclaw_observatory.Pipeline.Dispatch.{
  heartbeat_handler, mission_update_handler, handler_validate, validate, apply, handler_for,
  mission_update_event_type,
}
use openclaw_observatory.Pipeline.Frame.{SameStores, validate-SameStores, apply-frame}
use openclaw_observatory.Ingest.{ingest_event}

heartbeat_handled : handler_for heartbeat_event_type ≡ some heartbeat_handler
unfolding handler_for
heartbeat_handled = refl

mission_update_handled : handler_for mission_update_event_type ≡ some mission_update_handler
unfolding handler_for
mission_update_handled = refl

module _ (schemas : Schemas) where
  -- With the registry up a heartbeat is let through if and only if its payload is valid, its time
  -- stamp is at most five minutes ahead of the clock, and its identity is registered.
  pub heartbeat_accepted_iff :
      (now : ℕ) (inbound : EventIn) (w : World)
      → inbound.event_type ≡ heartbeat_event_type
      → w.registry.fail ≡ false
      → ((validate schemas now inbound w).0 ≡ ok tt) ↔ (
          (p : HeartbeatPayload) × (schemas.heartbeat_payload inbound.payload ≡ some p)
          × (inbound.timestamp ≤ now + 300000000)
          × ((a : FleetAsset) × (lookup inbound.collector_id w.registry.records ≡ some a)))
  unfolding validate handler_validate heartbeat_validate get_asset
  heartbeat_accepted_iff now inbound w same up =
      elim (Option-cases (schemas.heartbeat_payload inbound.payload)) [
        | inl invalid ↦ (
          (λ h. absurd (ground (arith, same, heartbeat_handled, invalid))),
          (λ (p, valid, _, _). absurd (cc (valid, invalid))),
        )
        | inr (p, valid) ↦ elim (Option-cases (lookup inbound.collector_id w.registry.records)) [
          | inl unknown ↦ (
            (λ h. absurd (ground (arith, same, heartbeat_handled, valid, unknown))),
            (λ (_, _, _, (a, found)). absurd (cc (found, unknown))),
          )
          | inr (a, found) ↦ (
            (λ h. (p, valid, ground (arith, same, heartbeat_handled, valid, found), (a, found))),
            (λ (_, _, le, _). ground (arith, same, heartbeat_handled, valid, found, le)),
          )
        ]
      ]

  -- With the event store down a submission that passes validation is answered 503; no store changes.
  pub storage_down_refused :
      (p : CollectorPrincipal) (now : ℕ) (stamp : Stamp) (inbound : EventIn) (w : World)
      → inbound.collector_id ≡ p.subject
      → (validate schemas now inbound w).0 ≡ ok tt
      → w.events.fail ≡ true
      → ((ingest_event schemas p now stamp inbound w).0 ≡ err (http_exception 503))
        × SameStores w (ingest_event schemas p now stamp inbound w).1
  unfolding ingest_event
  storage_down_refused p now stamp inbound w same valid down =
      grind (arith, validate-SameStores schemas, eq_iff)

  -- With the event store up, a valid submission whose projection meets a storage error, once its event
  -- is stored, is answered 503, and the event stays stored.
  pub projection_failure_keeps_event :
      (p : CollectorPrincipal) (now : ℕ) (stamp : Stamp) (inbound : EventIn) (w : World)
      → inbound.collector_id ≡ p.subject
      → (validate schemas now inbound w).0 ≡ ok tt
      → w.events.fail ≡ false
      → (let e = from_ingest stamp inbound in
          let w' = (validate schemas now inbound w).1 in
          (apply schemas e
            (record w' { events = record w'.events { events = w'.events.events ++ e ∷ [] } })).0
          ≡ err storage_error)
      → ((ingest_event schemas p now stamp inbound w).0 ≡ err (http_exception 503))
        × ((ingest_event schemas p now stamp inbound w).1.events.events
            ≡ w.events.events ++ from_ingest stamp inbound ∷ [])
  unfolding ingest_event
  projection_failure_keeps_event p now stamp inbound w same valid up fails =
      grind (arith, validate-SameStores schemas, apply-frame schemas, eq_iff, fails)

  -- With the mission store up a valid update whose transition the lifecycle does not allow is
  -- rejected with 409, and validation changes nothing.
  pub illegal_transition_rejected :
      (now : ℕ) (inbound : EventIn) (w : World) (u : MissionUpdate)
      → inbound.event_type ≡ mission_update_event_type
      → schemas.mission_update inbound.payload ≡ some u
      → w.missions.fail ≡ false
      → is_valid_transition
          (known (lookup u.mission_id w.missions.records) (λ r. r.state))
          u.state
          u.backfill
        ≡ false
      → validate schemas now inbound w
        ≡ (err (pipeline_rejection 409 "invalid_mission_transition"), w)
  unfolding validate handler_validate mission_validate get_mission
  illegal_transition_rejected now inbound w u same valid up bad =
      ground (arith, same, mission_update_handled, valid, bad)

  -- A heartbeat for the authenticated identity, with a valid payload and time stamp, that comes while
  -- the registry's store is down makes `ingest_event` raise the storage error of the lookup itself, not
  -- the exception of a 503, and leaves the services as they were, the count of ingestion failures
  -- included.
  pub registry_down_escapes :
      (p : CollectorPrincipal) (now : ℕ) (stamp : Stamp) (inbound : EventIn) (w : World)
      (payload : HeartbeatPayload)
      → inbound.collector_id ≡ p.subject
      → inbound.event_type ≡ heartbeat_event_type
      → schemas.heartbeat_payload inbound.payload ≡ some payload
      → inbound.timestamp ≤ now + 300000000
      → w.registry.fail ≡ true
      → ingest_event schemas p now stamp inbound w ≡ (err storage_error, w)
  unfolding ingest_event validate handler_validate heartbeat_validate get_asset
  registry_down_escapes p now stamp inbound w payload same type valid early down = ground (
    arith,
    eq_iff inbound.collector_id p.subject,
    same,
    type,
    heartbeat_handled,
    valid,
    early,
    down,
  )
