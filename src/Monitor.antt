-- ===== src/Monitor.antt =====
-- `build_snapshot` of backend/app/services/monitor.py: what the page shows, read in one pass. The
-- commit, the build time and the display timezone, which it copies, are left out.
pub mod Text
pub mod Sections
pub mod Events
pub mod Tables
pub mod Devices
use openclaw_observatory.Prelude.{
  ℕ, String, Bool, ◌==◌, Option, none, some, List, [], ◌∷◌, if◌then◌else◌,
}
use openclaw_observatory.Json.{Fields}
use openclaw_observatory.Config.{Settings}
use openclaw_observatory.Exec.{Result, ok, err}
use openclaw_observatory.Models.Event.{Event}
use openclaw_observatory.Models.Mission.{MissionRecord}
use openclaw_observatory.Models.Inventory.{HostInventoryRecord}
use openclaw_observatory.Models.Registry.{AssetType, agent, node, Environment, FleetAssetView}
use openclaw_observatory.Storage.Events.{Query, query_events, latest_event, ping}
use openclaw_observatory.Storage.Keyed.{list_missions, get_inventory}
use openclaw_observatory.Registry.{list_views}
use openclaw_observatory.World.{World}

pub record MonitorSnapshot : Type 0 where
  pub generated_at : ℕ
  pub backend_version : String
  pub backend_fleet_id : String
  pub backend_uptime_seconds : ℕ
  pub database_connected : Bool
  pub deployment_environment : Environment
  pub assets : List FleetAssetView
  pub missions : List MissionRecord
  pub host_fleet_id : Option String
  pub host_metrics : Option Event
  pub host_inventory : Option HostInventoryRecord
  pub docker : Option Event
  pub agent_fleet_id : Option String
  pub agent_status : Option Event
  pub recent_events : List Event

abbrev pub recent_events_limit : ℕ
recent_events_limit = 20

abbrev pub notable_event_types : List String
notable_event_types = "service_start" ∷ "asset_offline" ∷ "asset_online" ∷ "mission_update" ∷ []

abbrev pub recent_query : Query
recent_query = record {
  collector_id = none;
  event_type = none;
  event_types = some notable_event_types;
  limit = recent_events_limit;
}

-- the first of the assets that `p` holds of
unfoldable pub first_asset : (FleetAssetView → Bool) → List FleetAssetView → Option FleetAssetView
first_asset p [] = none
first_asset p (a ∷ rest) = let later = first_asset p rest in if p a then some a else later

abbrev id_of : Option FleetAssetView → Option String
id_of none = none
id_of (some a) = some a.fleet_id

abbrev is_node : FleetAssetView → Bool
is_node a = elim a.asset_type [ AssetType.node ↦ Bool.true | _ ↦ Bool.false ]

abbrev is_agent : FleetAssetView → Bool
is_agent a = elim a.asset_type [ AssetType.agent ↦ Bool.true | _ ↦ Bool.false ]

-- the relationship of the backend's own asset, or else the first registered node
unfoldable pub host_of : String → List FleetAssetView → Option String
unfolding first_asset
host_of fleet_id assets =
    let fallback = id_of (first_asset is_node assets) in
    elim (first_asset (λ a. a.fleet_id == fleet_id) assets) [
      | none ↦ fallback
      | some backend ↦ elim backend.host_fleet_id [ none ↦ fallback | some host ↦ some host ]
    ]

abbrev read_if : {A : Type 0} → (String → Result (Option A)) → Option String → Result (Option A)
read_if read none = ok none
read_if read (some id) = read id

infixl 5 ◌>>=◌
abbrev ◌>>=◌ : {A B : Type 0} → Result A → (A → Result B) → Result B
err e >>= f = err e
ok a >>= f = f a

-- Nothing is written: the world is only read.
unfoldable pub build_snapshot : Settings → (ℕ → ℕ) → ℕ → ℕ → World → Result MonitorSnapshot
unfolding host_of first_asset
build_snapshot settings clock now uptime w = do
  assets ← list_views settings clock w
  missions ← list_missions w.missions
  let host = host_of settings.fleet_id assets
  let agent_id = id_of (first_asset is_agent assets)
  metrics ← read_if (λ id. latest_event id "system_metrics" w.events) host
  docker ← read_if (λ id. latest_event id "docker_status" w.events) host
  inventory ← read_if (λ id. get_inventory id w.inventories) host
  recent ← query_events recent_query w.events
  status ← read_if (λ id. latest_event id "agent_status" w.events) agent_id
  ok (record {
    generated_at = now;
    backend_version = settings.app_version;
    backend_fleet_id = settings.fleet_id;
    backend_uptime_seconds = uptime;
    database_connected = ping w.events;
    deployment_environment = settings.deployment_environment;
    assets = assets;
    missions = missions;
    host_fleet_id = host;
    host_metrics = metrics;
    host_inventory = inventory;
    docker = docker;
    agent_fleet_id = agent_id;
    agent_status = status;
    recent_events = recent;
  })
