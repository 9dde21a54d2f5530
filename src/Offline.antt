-- ===== src/Offline.antt =====
-- backend/app/services/offline.py: the offline detector and the backend's own heartbeat. `isoformat`
-- is `datetime.isoformat`, `uuid` what `uuid4()` gives for the event of an asset.
pub mod Judgment
pub mod Sweep
use openclaw_observatory.Prelude.{
  ℕ, suc, String, Bool, true, false, Option, none, some, List, [], ◌∷◌, length, if◌then◌else◌,
}
use openclaw_observatory.Prelude.Int.{pos, ltb_ℤ}
use openclaw_observatory.Prelude.Dict.{Dict, lookup, insert}
use openclaw_observatory.Json.{Value, Fields, end, field}
use openclaw_observatory.Config.{Settings}
use openclaw_observatory.Models.Event.{Event}
use openclaw_observatory.Models.Heartbeat.{heartbeat_event_type}
use openclaw_observatory.Models.Registry.{Connectivity, online, offline, FleetAsset}
use openclaw_observatory.Storage.Events.{latest_event, insert_event}
use openclaw_observatory.Storage.Keyed.{list_assets}
use openclaw_observatory.Exec.{Exec, Result, ok, err, pure, ◌>>=◌, ◌>>◌}
use openclaw_observatory.World.{
  World, MetricCall, on_events, metric, offline_transitions_total, fleet_registered_assets,
  fleet_active_assets, fleet_offline_assets, fleet_unknown_assets,
}
use openclaw_observatory.Registry.{age_of}

abbrev pub offline_event_type : String
offline_event_type = "asset_offline"

abbrev pub online_event_type : String
online_event_type = "asset_online"

abbrev pub connectivity_value : Connectivity → String
connectivity_value Connectivity.online = "online"
connectivity_value Connectivity.offline = "offline"
connectivity_value Connectivity.unknown = "unknown"

abbrev pub same_connectivity : Connectivity → Connectivity → Bool
same_connectivity Connectivity.online Connectivity.online = true
same_connectivity Connectivity.offline Connectivity.offline = true
same_connectivity Connectivity.unknown Connectivity.unknown = true
same_connectivity _ _ = false

-- The detector with the services that it calls; `known` is `_known`.
pub record Detector : Type 0 where
  pub world : World
  pub known : Dict Connectivity

-- `counts`
pub record Counts : Type 0 where
  pub online : ℕ
  pub offline : ℕ
  pub unknown : ℕ

abbrev pub no_counts : Counts
no_counts = record { online = 0; offline = 0; unknown = 0 }

unfoldable pub bump : Connectivity → Counts → Counts
bump Connectivity.online c = record c { online = suc c.online }
bump Connectivity.offline c = record c { offline = suc c.offline }
bump Connectivity.unknown c = record c { unknown = suc c.unknown }

abbrev pub on_world : {A : Type 0} → Exec World A → Exec Detector A
on_world m d = let (r, w) = m d.world in (r, record d { world = w })

-- what `_evaluate` returns for the newest heartbeat: the state, and its source timestamp
unfoldable pub judgment : Settings → ℕ → Option Event → Connectivity × Option ℕ
judgment settings now none = (Connectivity.unknown, none)
judgment settings now (some heartbeat) =
    if ltb_ℤ (pos settings.offline_timeout) (age_of now heartbeat)
    then (Connectivity.offline, some heartbeat.timestamp)
    else (Connectivity.online, some heartbeat.timestamp)

-- `_evaluate`
unfoldable pub evaluate : Settings → String → ℕ → World → Result (Connectivity × Option ℕ)
unfolding judgment
evaluate settings fleet_id now w = elim (latest_event fleet_id heartbeat_event_type w.events) [
  | err e ↦ err e
  | ok heartbeat ↦ ok (judgment settings now heartbeat)
]

module _ (isoformat : ℕ → String) (settings : Settings) where
  abbrev pub iso_or_null : Option ℕ → Value
  iso_or_null none = Value.null
  iso_or_null (some t) = Value.str (isoformat t)

  -- the event of `_emit_transition`
  unfoldable pub transition_event :
      ℕ → String → String → Connectivity → Connectivity → Option ℕ → ℕ → Event
  transition_event id fleet_id event_type previous current last_heartbeat now = record {
    id = id;
    collector_id = fleet_id;
    timestamp = now;
    event_type = event_type;
    payload = field "previous" (Value.str (connectivity_value previous)) (
        field "current" (Value.str (connectivity_value current)) (
          field "last_heartbeat_timestamp" (iso_or_null last_heartbeat) (
            field "offline_timeout_seconds" (Value.float (pos settings.offline_timeout))
              (field "detected_by" (Value.str settings.fleet_id) end))));
    schema_version = 1;
    received_at = now;
  }

  unfoldable pub emit_transition : Event → String → Exec World (Unit {0})
  emit_transition event direction = do
    on_events (insert_event event)
    metric (offline_transitions_total event.collector_id direction)

  -- the transition of one asset, if there is one to report
  unfoldable pub report :
      ℕ → String → Option Connectivity → Connectivity → Option ℕ → ℕ → Exec World (Unit {0})
  unfolding emit_transition
  report id fleet_id none state last now = pure tt
  report id fleet_id (some previous) state last now =
      if same_connectivity previous state then pure tt else elim state [
        | Connectivity.offline ↦
            emit_transition
              (transition_event id fleet_id offline_event_type previous Connectivity.offline last
                now)
              "offline"
        | Connectivity.online ↦
            emit_transition
              (transition_event id fleet_id online_event_type previous Connectivity.online last now)
              "online"
        | Connectivity.unknown ↦ pure tt
      ]

  -- The loop of `run_once`. `_known` is written before the event is stored.
  unfoldable pub sweep : (String → ℕ) → ℕ → List FleetAsset → Counts → Exec Detector Counts
  unfolding evaluate report bump
  sweep uuid now [] counts d = (ok counts, d)
  sweep uuid now (asset ∷ rest) counts d = elim (evaluate settings asset.fleet_id now d.world) [
    | err e ↦ (err e, d)
    | ok (state, last) ↦
        let previous = lookup asset.fleet_id d.known in
        let d' : Detector = record d { known = insert asset.fleet_id state d.known } in
        let (r, w) = report (uuid asset.fleet_id) asset.fleet_id previous state last now d.world in
        elim r [
          | err e ↦ (err e, record d' { world = w })
          | ok _ ↦ sweep uuid now rest (bump state counts) (record d' { world = w })
        ]
  ]

  unfoldable pub run_once : (String → ℕ) → ℕ → Exec Detector (Unit {0})
  unfolding sweep
  run_once uuid now d = elim (list_assets d.world.registry) [
    | err e ↦ (err e, d)
    | ok assets ↦
        (do
          counts ← sweep uuid now assets no_counts
          on_world (metric (fleet_registered_assets (length assets)))
          on_world (metric (fleet_active_assets counts.online))
          on_world (metric (fleet_offline_assets counts.offline))
          on_world (metric (fleet_unknown_assets counts.unknown)))
          d
  ]

-- `BackendHeartbeat.beat_once`; the uptime is rounded to milliseconds by `round(…, 3)`
unfoldable pub beat_event : Settings → ℕ → ℕ → ℕ → Event
beat_event settings id now uptime = record {
  id = id;
  collector_id = settings.fleet_id;
  timestamp = now;
  event_type = heartbeat_event_type;
  payload = field "collector_type" (Value.str "observatory-backend") (
      field "collector_version" (Value.str settings.app_version) (
        field "software_version" (Value.str settings.app_version) (
          field "uptime_seconds" (Value.float (pos uptime))
            (field "failures_total" (Value.int (pos 0)) end))));
  schema_version = 1;
  received_at = now;
}

unfoldable pub beat_once : Settings → ℕ → ℕ → ℕ → Exec World Event
unfolding beat_event
beat_once settings id now uptime = do
  let event = beat_event settings id now uptime
  on_events (insert_event event)
  pure event
