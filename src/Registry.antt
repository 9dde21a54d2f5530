-- ===== src/Registry.antt =====
-- backend/app/services/registry.py: the read model joins an identity with its newest telemetry.
use openclaw_observatory.Prelude.{ℕ, suc, String, Option, none, some, List, [], ◌∷◌, if◌then◌else◌}
use openclaw_observatory.Prelude.Int.{ℤ, pos, sub_ℕ, ltb_ℤ}
use openclaw_observatory.Json.{Value, Fields, get, as_str, as_int, as_float}
use openclaw_observatory.Config.{Settings}
use openclaw_observatory.Models.Event.{Event}
use openclaw_observatory.Models.Heartbeat.{heartbeat_event_type}
use openclaw_observatory.Models.Registry.{
  Connectivity, online, offline, FleetAsset, FleetAssetView, HeartbeatInfo,
}
use openclaw_observatory.Storage.Events.{latest_event}
use openclaw_observatory.Storage.Keyed.{get_asset, list_assets}
use openclaw_observatory.Exec.{Result, ok, err}
use openclaw_observatory.World.{World}
use openclaw_observatory.Pipeline.Mission.{or_else}
use openclaw_observatory.Health.{compute_health}

abbrev pub system_metrics_event_type : String
system_metrics_event_type = "system_metrics"

-- a value of the payload, kept if it has the expected type
abbrev pub checked {ℓ} : {A : Type ℓ} → (Value → Option A) → Fields → String → Option A
checked convert payload key = elim (get key payload) [ none ↦ none | some v ↦ convert v ]

unfoldable pub heartbeat_info : Event → HeartbeatInfo
unfolding get as_str as_int as_float
heartbeat_info event = record {
  timestamp = event.timestamp;
  received_at = event.received_at;
  software_version = checked as_str event.payload "software_version";
  collector_version = checked as_str event.payload "collector_version";
  collector_type = checked as_str event.payload "collector_type";
  schema_version = some event.schema_version;
  uptime_seconds = checked as_float event.payload "uptime_seconds";
  failures_total = checked as_int event.payload "failures_total";
}

-- `(now - timestamp).total_seconds()`
abbrev pub age_of : ℕ → Event → ℤ
age_of now event = sub_ℕ now event.timestamp

unfoldable pub connectivity_of : Settings → ℕ → Option Event → Connectivity
connectivity_of settings now none = Connectivity.unknown
connectivity_of settings now (some heartbeat) =
    if ltb_ℤ (pos settings.offline_timeout) (age_of now heartbeat) then offline else online

abbrev pub mapped {ℓ κ} : {A : Type ℓ} {B : Type κ} → (A → B) → Option A → Option B
mapped f none = none
mapped f (some a) = some (f a)

abbrev pub joined {ℓ κ} : {A : Type ℓ} {B : Type κ} → (A → Option B) → Option A → Option B
joined f none = none
joined f (some a) = f a

-- The view from the newest heartbeat and the newest system metrics of the asset.
unfoldable pub assemble : Settings → ℕ → FleetAsset → Option Event → Option Event → FleetAssetView
unfolding heartbeat_info connectivity_of
assemble settings now asset heartbeat_event system_event =
    let heartbeat = mapped heartbeat_info heartbeat_event in
    let connectivity = connectivity_of settings now heartbeat_event in
    record {
      fleet_id = asset.fleet_id;
      asset_type = asset.asset_type;
      nickname = asset.nickname;
      hostname = asset.hostname;
      role = asset.role;
      location = asset.location;
      platform = asset.platform;
      os = asset.os;
      software_version =
          or_else (joined (λ h. h.software_version) heartbeat) asset.software_version;
      host_fleet_id = asset.host_fleet_id;
      deployment_role = asset.deployment_role;
      service_version = asset.service_version;
      capabilities = asset.capabilities;
      tags = asset.tags;
      status = asset.status;
      environment = asset.environment;
      registered_at = asset.registered_at;
      updated_at = asset.updated_at;
      last_heartbeat = heartbeat;
      connectivity = connectivity;
      health =
          compute_health settings connectivity (mapped (age_of now) heartbeat_event)
            (mapped (λ e. e.payload) system_event) (joined (λ h. h.failures_total) heartbeat);
    }

unfoldable pub build_view : Settings → ℕ → FleetAsset → World → Result FleetAssetView
build_view settings now asset w = elim (latest_event asset.fleet_id heartbeat_event_type w.events) [
  | err e ↦ err e
  | ok heartbeat_event ↦ elim (latest_event asset.fleet_id system_metrics_event_type w.events) [
    | err e ↦ err e
    | ok system_event ↦ ok (assemble settings now asset heartbeat_event system_event)
  ]
]

unfoldable pub get_view : Settings → ℕ → String → World → Result (Option FleetAssetView)
get_view settings now fleet_id w = elim (get_asset fleet_id w.registry) [
  | err e ↦ err e
  | ok none ↦ ok none
  | ok (some asset) ↦ elim (build_view settings now asset w) [ err e ↦ err e | ok v ↦ ok (some v) ]
]

-- The clock is read anew for each asset: `clock k` is its k-th reading.
unfoldable pub build_views :
    Settings → (ℕ → ℕ) → ℕ → List FleetAsset → World → Result (List FleetAssetView)
build_views settings clock k [] w = ok []
build_views settings clock k (asset ∷ rest) w =
    let views = build_views settings clock (suc k) rest w in
    elim (build_view settings (clock k) asset w) [
      | err e ↦ err e
      | ok v ↦ elim views [ err e ↦ err e | ok vs ↦ ok (v ∷ vs) ]
    ]

unfoldable pub list_views : Settings → (ℕ → ℕ) → World → Result (List FleetAssetView)
unfolding build_views
list_views settings clock w = elim (list_assets w.registry) [
  | err e ↦ err e
  | ok assets ↦ build_views settings clock 0 assets w
]
