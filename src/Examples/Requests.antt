-- ===== src/Examples/Requests.antt =====
-- The ingestion and mission theorems at concrete requests.
use openclaw_observatory.Prelude.{
  ◌≤◌, ◌≡◌, ◌≢◌, ◌+◌, refl, true, none, some, List, [], ◌∷◌, ◌++◌, arith, eq_iff, ◌↔◌,
}
use openclaw_observatory.Prelude.Dict.{lookup, insert}
use openclaw_observatory.Json.{Value, end, field, get, truthy}
use openclaw_observatory.Models.Event.{EventIn, from_ingest}
use openclaw_observatory.Models.Heartbeat.{HeartbeatPayload}
use openclaw_observatory.Models.Mission.{
  MissionRecord, is_valid_transition, transition_allowed, state_index, index_from,
}
use openclaw_observatory.Models.Registry.{FleetAsset}
use openclaw_observatory.Storage.Events.{insert_event}
use openclaw_observatory.Storage.Keyed.{get_asset, get_mission, upsert_mission, upsert_inventory}
use openclaw_observatory.Auth.{authenticate, match_keys, require_collector}
use openclaw_observatory.Exec.{ok, err, http_exception, storage_error}
use openclaw_observatory.World.{World}
use openclaw_observatory.Pipeline.Frame.{SameStores}
use openclaw_observatory.Pipeline.Heartbeat.{heartbeat_validate, heartbeat_apply}
use openclaw_observatory.Pipeline.Inventory.{inventory_validate, inventory_apply}
use openclaw_observatory.Pipeline.Mission.{
  mission_validate, mission_apply, write_projection, projected, next_started, next_completed,
}
use openclaw_observatory.Pipeline.Dispatch.{
  validate, apply, handler_validate, handler_apply, handler_for, build_pipeline, event_pipeline,
}
use openclaw_observatory.Ingest.{ingest_event, post_event}
use openclaw_observatory.Ingest.Serve.{Request, handle, serve}
use openclaw_observatory.Ingest.Safety.{accepted_is_stored, registry_immutable}
use openclaw_observatory.Ingest.Outcomes.{
  heartbeat_accepted_iff, storage_down_refused, projection_failure_keeps_event,
  registry_down_escapes,
}
use openclaw_observatory.Missions.Record.{IsMission, Extends}
use openclaw_observatory.Missions.History.{stored_record-IsMission, missions_never_regress}
use openclaw_observatory.Examples.{
  host, sample_schemas, sample_update, sample_bindings, collector, fresh_world, sample_stamp,
  heartbeat_in, mission_in, request,
}

abbrev creation : List Request
creation = request (mission_in "Created") ∷ []

abbrev planning : List Request
planning = request (mission_in "Planned") ∷ []

-- the mission as its creation leaves it
abbrev pub m1 : MissionRecord
m1 = record {
  mission_id = "M1";
  title = "M1";
  assigned_agent = none;
  state = "Created";
  created_at = 900;
  started_at = none;
  completed_at = none;
  pr_ref = none;
  commit_sha = none;
  updated_at = 1000;
}

m1_created :
    lookup "M1" (serve sample_schemas sample_bindings creation fresh_world).missions.records
    ≡ some m1
unfolding serve handle post_event require_collector authenticate match_keys ingest_event validate
    handler_validate handler_for build_pipeline event_pipeline mission_validate get_mission
    insert_event from_ingest apply handler_apply mission_apply write_projection projected
    upsert_mission next_started next_completed state_index index_from is_valid_transition
    transition_allowed lookup insert get truthy sample_update
m1_created = refl

missions_never_regress_example :
    (r' : MissionRecord) × (lookup "M1"
        (serve sample_schemas sample_bindings planning
          (serve sample_schemas sample_bindings creation fresh_world)).missions.records
      ≡ some r')
    × Extends m1 r'
missions_never_regress_example =
    missions_never_regress sample_schemas sample_bindings creation fresh_world refl planning "M1" m1
      m1_created

stored_record-IsMission_example : IsMission m1 × (m1.mission_id ≡ "M1")
stored_record-IsMission_example =
    stored_record-IsMission sample_schemas sample_bindings creation fresh_world refl "M1" m1
      m1_created

heartbeat_stored :
    (ingest_event sample_schemas collector 950 sample_stamp heartbeat_in fresh_world).0
    ≡ ok (record { id = 1; received_at = 1000; status = "accepted" })
unfolding ingest_event validate handler_validate handler_for build_pipeline event_pipeline
    heartbeat_validate get_asset insert_event from_ingest apply handler_apply heartbeat_apply lookup
    insert
heartbeat_stored = refl

accepted_is_stored_example :
    ((ingest_event sample_schemas collector 950 sample_stamp heartbeat_in
        fresh_world).1.events.events
      ≡ [] ++ from_ingest sample_stamp heartbeat_in ∷ [])
    × (sample_stamp.id ≡ sample_stamp.id)
    × (heartbeat_in.collector_id ≡ collector.subject)
    × ((validate sample_schemas 950 heartbeat_in fresh_world).0 ≡ ok tt)
accepted_is_stored_example =
    accepted_is_stored sample_schemas collector 950 sample_stamp heartbeat_in fresh_world
      (record { id = 1; received_at = 1000; status = "accepted" }) heartbeat_stored

abbrev spoofed : EventIn
spoofed = record heartbeat_in { collector_id = "A001" }

spoof_differs : spoofed.collector_id ≢ collector.subject
spoof_differs = ground (arith, eq_iff "A001" "RPSG01")

registry_immutable_example :
    (post_event sample_schemas sample_bindings
      (some "key-a")
      950
      sample_stamp
      heartbeat_in
      fresh_world).1.registry
    ≡ fresh_world.registry
registry_immutable_example =
    registry_immutable sample_schemas sample_bindings (some "key-a") 950 sample_stamp heartbeat_in
      fresh_world

heartbeat_accepted_iff_example :
    ((validate sample_schemas 950 heartbeat_in fresh_world).0 ≡ ok tt) ↔ (
      (p : HeartbeatPayload) × (sample_schemas.heartbeat_payload heartbeat_in.payload ≡ some p)
      × (900 ≤ 950 + 300000000)
      × ((a : FleetAsset) × (lookup "RPSG01" fresh_world.registry.records ≡ some a)))
heartbeat_accepted_iff_example =
    heartbeat_accepted_iff sample_schemas 950 heartbeat_in fresh_world refl refl

abbrev events_down : World
events_down = record fresh_world { events = record { events = []; started = true; fail = true } }

valid_down : (validate sample_schemas 950 heartbeat_in events_down).0 ≡ ok tt
unfolding validate handler_validate handler_for build_pipeline event_pipeline heartbeat_validate
    get_asset lookup insert
valid_down = refl

storage_down_refused_example :
    ((ingest_event sample_schemas collector 950 sample_stamp heartbeat_in events_down).0
      ≡ err (http_exception 503))
    × SameStores events_down
        (ingest_event sample_schemas collector 950 sample_stamp heartbeat_in events_down).1
storage_down_refused_example =
    storage_down_refused sample_schemas collector 950 sample_stamp heartbeat_in events_down refl
      valid_down refl

abbrev inventory_in : EventIn
inventory_in = record {
  collector_id = "RPSG01";
  timestamp = 900;
  event_type = "host_inventory";
  payload = field "hardware" Value.null end;
  schema_version = 1;
}

abbrev inventories_down : World
inventories_down = record fresh_world { inventories = record { records = []; fail = true } }

inventory_valid : (validate sample_schemas 950 inventory_in inventories_down).0 ≡ ok tt
unfolding validate handler_validate handler_for build_pipeline event_pipeline inventory_validate
    get_asset lookup insert
inventory_valid = refl

projection_fails :
    let e = from_ingest sample_stamp inventory_in in
    let w' = (validate sample_schemas 950 inventory_in inventories_down).1 in
    (apply sample_schemas e
      (record w' { events = record w'.events { events = w'.events.events ++ e ∷ [] } })).0
    ≡ err storage_error
unfolding validate handler_validate handler_for build_pipeline event_pipeline inventory_validate
    get_asset lookup insert apply handler_apply inventory_apply upsert_inventory from_ingest
projection_fails = refl

projection_failure_keeps_event_example :
    ((ingest_event sample_schemas collector 950 sample_stamp inventory_in inventories_down).0
      ≡ err (http_exception 503))
    × ((ingest_event sample_schemas collector 950 sample_stamp inventory_in
          inventories_down).1.events.events
        ≡ from_ingest sample_stamp inventory_in ∷ [])
projection_failure_keeps_event_example =
    projection_failure_keeps_event sample_schemas collector 950 sample_stamp inventory_in
      inventories_down refl inventory_valid refl projection_fails

abbrev registry_down : World
registry_down = record fresh_world {
  registry = record { records = ("RPSG01", host) ∷ []; fail = true };
}

abbrev any_payload : HeartbeatPayload
any_payload = record {
  collector_type = "host-pi";
  collector_version = "0.1.0";
  software_version = none;
  uptime_seconds = none;
  failures_total = 0;
}

registry_down_escapes_example :
    ingest_event sample_schemas collector 950 sample_stamp heartbeat_in registry_down
    ≡ (err storage_error, registry_down)
registry_down_escapes_example =
    registry_down_escapes sample_schemas collector 950 sample_stamp heartbeat_in registry_down
      any_payload refl refl refl (omega arith) refl
