-- ===== src/Missions/Step.antt =====
-- What one request to `POST /api/v1/events` does to the mission store.
use openclaw_observatory.Prelude.{
  ℕ, ◌≡◌, refl, ◌⊎◌, inl, inr, true, Option, none, some, arith, Bool-cases, Option-cases, ap, sym,
  ◌∙◌,
}
use openclaw_observatory.Prelude.Dict.{lookup, insert}
use openclaw_observatory.Models.Event.{Event, EventIn, Stamp, from_ingest}
use openclaw_observatory.Models.Mission.{MissionUpdate, is_valid_transition, state_index}
use openclaw_observatory.Auth.{CollectorPrincipal}
use openclaw_observatory.Schemas.{Schemas}
use openclaw_observatory.Exec.{ok}
use openclaw_observatory.Storage.Keyed.{MissionStore, get_mission, upsert_mission}
use openclaw_observatory.Storage.Events.{insert_event}
use openclaw_observatory.World.{World, on_events}
use mathlib.Core.Path.{subst}
use openclaw_observatory.Pipeline.Heartbeat.{heartbeat_apply}
use openclaw_observatory.Pipeline.Inventory.{inventory_apply}
use openclaw_observatory.Pipeline.Mission.{mission_validate, mission_apply, projected, known}
use openclaw_observatory.Pipeline.Dispatch.{
  Handler, heartbeat_handler, mission_update_handler, host_inventory_handler, handler_validate,
  handler_apply, handler_for, validate, apply,
}
use openclaw_observatory.Pipeline.Frame.{validate-SameStores}
use openclaw_observatory.Ingest.{ingest_event}

module _ (schemas : Schemas) where
  -- The write that an update makes: its transition is legal from the record that it replaces.
  pub record Write (m m' : MissionStore) (event : Event) : Type 0 where
    pub update : MissionUpdate
    pub index : ℕ
    pub parsed : schemas.mission_update event.payload ≡ some update
    pub position : state_index update.state ≡ some index
    pub legal :
        is_valid_transition
          (known (lookup update.mission_id m.records) (λ r. r.state))
          update.state
          update.backfill
        ≡ true
    pub written : m' ≡ record m {
      records =
          insert update.mission_id
            (projected update (lookup update.mission_id m.records) index event)
            m.records;
    }

  validated_legal :
      (inbound : EventIn) (w : World) (u : MissionUpdate)
      → schemas.mission_update inbound.payload ≡ some u
      → (mission_validate schemas inbound w).0 ≡ ok tt
      → is_valid_transition
          (known (lookup u.mission_id w.missions.records) (λ r. r.state))
          u.state
          u.backfill
        ≡ true
  unfolding mission_validate get_mission
  validated_legal inbound w u e h = ground arith

  pub applied :
      (event : Event) (w : World)
      → let m' = (mission_apply schemas event w).1.missions in
        (m' ≡ w.missions)
        ⊎ ((u : MissionUpdate) × (j : ℕ) × (schemas.mission_update event.payload ≡ some u)
            × (state_index u.state ≡ some j)
            × (m' ≡ record w.missions {
              records =
                  insert u.mission_id
                    (projected u (lookup u.mission_id w.missions.records) j event)
                    w.missions.records;
            }))
  unfolding mission_apply get_mission upsert_mission
  applied event w = elim (Option-cases (schemas.mission_update event.payload)) [
    | inl e ↦ inl (ground arith)
    | inr (u, e) ↦ elim (Option-cases (state_index u.state)) [
      | inl n ↦ inl (ground arith)
      | inr (j, p) ↦ elim (Bool-cases w.missions.fail) [
        | inl down ↦ inl (ground arith)
        | inr up ↦ inr (u, j, e, p, rw (e, mission_apply, up, p) (unfold projected in refl))
      ]
    ]
  ]

  module _ (now : ℕ) (stamp : Stamp) (inbound : EventIn) (w : World) where
    abbrev event : Event
    event = from_ingest stamp inbound

    -- the projection after a validation that saw the same missions
    handler_effect :
        (h : Option Handler) (w' : World)
        → w'.missions ≡ w.missions
        → (handler_validate schemas h now inbound w).0 ≡ ok tt
        → ((handler_apply schemas h event w').1.missions ≡ w.missions)
          ⊎ Write w.missions (handler_apply schemas h event w').1.missions event
    unfolding handler_validate handler_apply heartbeat_apply inventory_apply from_ingest
    handler_effect none w' same v = inl same
    handler_effect (some heartbeat_handler) w' same v = inl (ground arith)
    handler_effect (some host_inventory_handler) w' same v = inl (ground arith)
    handler_effect (some mission_update_handler) w' same v = elim (applied event w') [
      | inl e ↦ inl (e ∙ same)
      | inr (u, j, e, p, wrote) ↦ inr (record {
        update = u;
        index = j;
        parsed = e;
        position = p;
        legal = validated_legal inbound w u e v;
        written =
            wrote
            ∙ ap
                (λ (m : MissionStore). record m {
                  records =
                      insert u.mission_id (projected u (lookup u.mission_id m.records) j event)
                        m.records;
                })
                same;
      })
    ]

    effect :
        (w' : World)
        → w'.missions ≡ w.missions
        → (validate schemas now inbound w).0 ≡ ok tt
        → ((apply schemas event w').1.missions ≡ w.missions)
          ⊎ Write w.missions (apply schemas event w').1.missions event
    unfolding validate apply from_ingest
    effect w' = handler_effect (handler_for inbound.event_type) w'

    -- the state in which `ingest_event` calls `apply`
    abbrev stored : World
    stored = (on_events (insert_event event) (validate schemas now inbound w).1).1

    stored-missions : stored.missions ≡ w.missions
    unfolding insert_event from_ingest
    stored-missions = grind (arith, validate-SameStores schemas)

    reaches :
        (p : CollectorPrincipal)
        → let m' = (ingest_event schemas p now stamp inbound w).1.missions in
          (m' ≡ w.missions)
          ⊎ (((validate schemas now inbound w).0 ≡ ok tt)
              × (m' ≡ (apply schemas event stored).1.missions))
    unfolding ingest_event
    reaches p = grind (arith, validate-SameStores schemas)

    -- A request leaves the missions alone, or makes one legal write.
    pub ingest-Write :
        (p : CollectorPrincipal)
        → let m' = (ingest_event schemas p now stamp inbound w).1.missions in
          (m' ≡ w.missions) ⊎ Write w.missions m' event
    ingest-Write p = elim (reaches p) [
      | inl same ↦ inl same
      | inr (v, e) ↦ elim (effect stored stored-missions v) [
        | inl same ↦ inl (e ∙ same)
        | inr wr ↦ inr (subst (λ m. Write w.missions m event) (sym e) wr)
      ]
    ]
