-- ===== src/Api.antt =====
-- The read routes of backend/app/api: fleet, missions, events and health, and the start event of
-- backend/app/services/startup_event.py. Each versioned route depends on `require_collector`.
pub mod Reads
use openclaw_observatory.Prelude.{
  ℕ, leb, String, Bool, true, false, not, ◌&&◌, Option, none, some, List, map, if◌then◌else◌,
}
use openclaw_observatory.Json.{Value, Fields, end, field}
use openclaw_observatory.Config.{Settings}
use openclaw_observatory.Models.Event.{Event}
use openclaw_observatory.Models.Inventory.{HostInventoryRecord}
use openclaw_observatory.Models.Mission.{MissionView, from_record}
use openclaw_observatory.Models.Registry.{FleetAssetView}
use openclaw_observatory.Models.Registry.Values.{environment_value}
use openclaw_observatory.Models.Telemetry.{TelemetrySnapshot, docker_status_event_type, from_event}
use openclaw_observatory.Storage.Events.{Query, insert_event, latest_event, query_events, ping}
use openclaw_observatory.Storage.Keyed
use openclaw_observatory.Storage.Keyed.{get_inventory}
use openclaw_observatory.Auth.{require_collector}
use openclaw_observatory.Exec.{
  Exec, http_exception, pure, raise, raise_if, try_except, on_storage_error, ◌>>=◌, ◌>>◌,
}
use openclaw_observatory.World.{World, App, reads, on_events}
use openclaw_observatory.Registry.{get_view, list_views}

-- 404 where there is nothing
abbrev pub found : {A : Type 0} → Option A → App A
found none = raise (http_exception 404)
found (some a) = pure a

module _ (bindings : List (String × String)) (api_key : Option String) where
  module _ (settings : Settings) where
    unfoldable pub list_fleet : (ℕ → ℕ) → App (List FleetAssetView)
    list_fleet clock = do _ ← require_collector bindings api_key; reads (list_views settings clock)

    unfoldable pub get_fleet_asset : ℕ → String → App FleetAssetView
    get_fleet_asset now fleet_id = do
      _ ← require_collector bindings api_key
      view ← reads (get_view settings now fleet_id)
      found view

    unfoldable pub get_host_inventory : ℕ → String → App HostInventoryRecord
    get_host_inventory now fleet_id = do
      _ ← require_collector bindings api_key
      view ← reads (get_view settings now fleet_id)
      _ ← found view
      r ← reads (λ w. get_inventory fleet_id w.inventories)
      found r

    unfoldable pub get_docker_status : ℕ → String → App TelemetrySnapshot
    get_docker_status now fleet_id = do
      _ ← require_collector bindings api_key
      view ← reads (get_view settings now fleet_id)
      _ ← found view
      event ← reads (λ w. latest_event fleet_id docker_status_event_type w.events)
      e ← found event
      pure (from_event fleet_id e)

  unfoldable pub list_missions : App (List MissionView)
  list_missions = do
    _ ← require_collector bindings api_key
    records ← reads (λ w. Keyed.list_missions w.missions)
    pure (map from_record records)

  unfoldable pub get_mission : String → App MissionView
  get_mission mission_id = do
    _ ← require_collector bindings api_key
    r ← reads (λ w. Keyed.get_mission mission_id w.missions)
    view ← found r
    pure (from_record view)

  -- `limit: Annotated[int, Query(ge=1, le=MAX_EVENTS_LIMIT)]`; out of its bounds FastAPI answers 422
  unfoldable pub list_events : Option String → Option String → ℕ → App (List Event)
  list_events collector_id event_type limit = do
    _ ← require_collector bindings api_key
    raise_if (not (leb 1 limit && leb limit 500)) (http_exception 422)
    try_except
        (reads (λ w.
          query_events
            (record {
              collector_id = collector_id;
              event_type = event_type;
              event_types = none;
              limit = limit;
            })
            w.events))
        (on_storage_error (raise (http_exception 503)))

pub record HealthResponse : Type 0 where
  pub status : String
  pub version : String
  pub uptime_seconds : ℕ
  pub connected : Bool

unfoldable pub health : Settings → ℕ → World → HealthResponse
health settings uptime w =
    let connected = ping w.events in
    record {
      status = if connected then "ok" else "degraded";
      version = settings.app_version;
      uptime_seconds = uptime;
      connected = connected;
    }

unfoldable pub service_start : Settings → String → ℕ → ℕ → Event
service_start settings git_commit id now = record {
  id = id;
  collector_id = settings.fleet_id;
  timestamp = now;
  event_type = "service_start";
  payload = field "service" (Value.str settings.app_name) (
      field "version" (Value.str settings.app_version) (
        field "git_commit" (Value.str git_commit) (
          field "environment" (Value.str (environment_value settings.deployment_environment))
            end)));
  schema_version = 1;
  received_at = now;
}

unfoldable pub record_service_start : Settings → String → ℕ → ℕ → App Event
unfolding service_start
record_service_start settings git_commit id now = do
  let event = service_start settings git_commit id now
  on_events (insert_event event)
  pure event
