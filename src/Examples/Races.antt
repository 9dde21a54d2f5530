-- ===== src/Examples/Races.antt =====
-- Two updates of one mission whose handlers are interleaved.
use openclaw_observatory.Prelude.{◌≡◌, refl, false, String, Option, none, some, [], ◌∷◌}
use openclaw_observatory.Prelude.Dict.{lookup, insert}
use openclaw_observatory.Json.{get, truthy}
use openclaw_observatory.Models.Event.{Event, EventIn, from_ingest}
use openclaw_observatory.Models.Mission.{
  MissionUpdate, is_valid_transition, transition_allowed, state_index, index_from,
}
use openclaw_observatory.Storage.Events.{insert_event}
use openclaw_observatory.Storage.Keyed.{get_mission, upsert_mission}
use openclaw_observatory.World.{World, on_events}
use openclaw_observatory.Pipeline.Mission.{
  mission_validate, mission_apply, projected, write_projection,
}
use openclaw_observatory.Pipeline.Dispatch.{
  validate, apply, handler_validate, handler_apply, handler_for, build_pipeline, event_pipeline,
}
use openclaw_observatory.Missions.Interleaving.{
  received, validated, looked, at, arrived, accept, store, look, write, Run, done, next,
}
use openclaw_observatory.Missions.Interleaving.Unchanged.{Kept, interleaving-Kept}
use openclaw_observatory.Examples.{
  sample_schemas, sample_update, fresh_world, mission_in, sample_stamp,
}
use openclaw_observatory.Examples.Requests.{m1}

-- a repeat of the first update, and the update behind it
abbrev repeated : EventIn
repeated = mission_in "Created"

abbrev queued : EventIn
queued = mission_in "Queued"

abbrev start : World
start = record fresh_world { missions = record { records = ("M1", m1) ∷ []; fail = false } }

abbrev repeated_event : Event
repeated_event = from_ingest sample_stamp repeated

abbrev queued_event : Event
queued_event = from_ingest sample_stamp queued

abbrev w1 : World
w1 = (validate sample_schemas 950 repeated start).1

abbrev w2 : World
w2 = (validate sample_schemas 950 queued w1).1

abbrev w3 : World
w3 = (on_events (insert_event queued_event) w2).1

abbrev w4 : World
w4 = (on_events (insert_event repeated_event) w3).1

abbrev update_of : Event → MissionUpdate
update_of event = sample_update event.payload

abbrev projecting : Event → World → World
projecting event w =
    (write_projection (update_of event) (some m1) event (state_index (update_of event).state) w).1

abbrev w5 : World
w5 = projecting queued_event w4

abbrev w6 : World
w6 = projecting repeated_event w5

-- Both are validated against the record as it was, both read it, and the repeat is written last.
race : Run sample_schemas (at start (arrived (repeated ∷ queued ∷ []))) (at w6 [])
unfolding validate apply handler_validate handler_apply handler_for build_pipeline event_pipeline
    mission_validate mission_apply write_projection get_mission upsert_mission insert_event lookup
    insert sample_update get truthy is_valid_transition transition_allowed state_index index_from
    from_ingest
race = next (accept start [] (received queued ∷ []) repeated 950 refl) (
    next (accept w1 (validated repeated ∷ []) [] queued 950 refl) (
      next (store w2 (validated repeated ∷ []) [] queued sample_stamp refl) (
        next
          (look w3 (validated repeated ∷ []) [] queued_event (update_of queued_event) (some m1) refl
            refl refl)
          (next
            (store w3 [] (looked (update_of queued_event) (some m1) queued_event ∷ []) repeated
              sample_stamp refl)
            (next
              (look w4 [] (looked (update_of queued_event) (some m1) queued_event ∷ [])
                repeated_event (update_of repeated_event) (some m1) refl refl refl)
              (next
                (write w4 (looked (update_of repeated_event) (some m1) repeated_event ∷ []) []
                  queued_event (update_of queued_event) (some m1))
                (next (write w5 [] [] repeated_event (update_of repeated_event) (some m1))
                  (done (at w6 [])))))))))

abbrev state_in : World → Option String
state_in w = elim (lookup "M1" w.missions.records) [ none ↦ none | some r ↦ some r.state ]

-- So the mission goes back from Queued to Created.
race_regresses : (state_in w5 ≡ some "Queued") × (state_in w6 ≡ some "Created")
unfolding validate apply handler_validate handler_apply handler_for build_pipeline event_pipeline
    mission_validate mission_apply write_projection get_mission upsert_mission insert_event lookup
    insert sample_update get truthy is_valid_transition transition_allowed state_index index_from
    from_ingest projected
race_regresses = (refl, refl)

interleaving-Kept_example : Kept sample_schemas start w6
interleaving-Kept_example =
    interleaving-Kept sample_schemas start (repeated ∷ queued ∷ []) (at w6 []) race
