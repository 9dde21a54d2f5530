-- ===== src/Examples/Updates.antt =====
-- The theorems on mission updates at concrete updates.
use openclaw_observatory.Prelude.{◌≡◌, refl, false, some, [], ◌∷◌}
use openclaw_observatory.Prelude.Dict.{lookup}
use openclaw_observatory.Json.{get, truthy}
use openclaw_observatory.Models.Event.{Event}
use openclaw_observatory.Models.Mission.{
  is_valid_transition, transition_allowed, state_index, index_from,
}
use openclaw_observatory.Exec.{ok, err, pipeline_rejection}
use openclaw_observatory.World.{World}
use openclaw_observatory.Pipeline.Mission.{mission_apply, projected}
use openclaw_observatory.Pipeline.Dispatch.{validate}
use openclaw_observatory.Ingest.Outcomes.{illegal_transition_rejected}
use openclaw_observatory.Missions.Retry.{applied_twice}
use openclaw_observatory.Examples.{sample_schemas, sample_update, fresh_world, mission_in}
use openclaw_observatory.Examples.Requests.{m1}

abbrev known_mission : World
known_mission = record fresh_world { missions = record { records = ("M1", m1) ∷ []; fail = false } }

skip_refused : is_valid_transition (some "Created") "Completed" false ≡ false
unfolding is_valid_transition transition_allowed state_index index_from
skip_refused = refl

illegal_transition_rejected_example :
    validate sample_schemas 950 (mission_in "Completed") known_mission
    ≡ (err (pipeline_rejection 409 "invalid_mission_transition"), known_mission)
unfolding sample_update get truthy lookup
illegal_transition_rejected_example =
    illegal_transition_rejected sample_schemas 950 (mission_in "Completed") known_mission
      (sample_update (mission_in "Completed").payload) refl refl refl skip_refused

abbrev first_event : Event
first_event = record {
  id = 1;
  collector_id = "RPSG01";
  timestamp = 900;
  event_type = "mission_update";
  payload = (mission_in "Created").payload;
  schema_version = 1;
  received_at = 1000;
}

abbrev again_event : Event
again_event = record first_event { id = 2; timestamp = 950; received_at = 2000 }

created_index : state_index "Created" ≡ some 0
unfolding state_index index_from
created_index = refl

applied_twice_example :
    let w = (mission_apply sample_schemas first_event fresh_world).1 in
    let u = sample_update first_event.payload in
    let r = projected u (lookup u.mission_id []) 0 first_event in
    (lookup u.mission_id (mission_apply sample_schemas again_event w).1.missions.records
      ≡ some (record r { updated_at = 2000 }))
    × ((mission_apply sample_schemas again_event w).0 ≡ ok tt)
unfolding sample_update get
applied_twice_example =
    applied_twice sample_schemas (sample_update first_event.payload) 0 first_event again_event
      fresh_world refl refl created_index refl
