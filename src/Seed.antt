-- ===== src/Seed.antt =====
-- backend/app/services/seed.py: create-only seeding of the Fleet Registry. `clock k` is the k-th
-- reading of `now_fn`.
pub mod Once
use openclaw_observatory.Prelude.{
  ℕ, suc, ◌+◌, String, Bool, not, true, false, Option, none, some, List, [], ◌∷◌, is_some,
  if◌then◌else◌,
}
use openclaw_observatory.Models.Registry.{
  AssetType, DeploymentRole, LifecycleStatus, Environment, FleetAsset, service_relationships,
}
use openclaw_observatory.Storage.Keyed.{RegistryStore, get_asset, upsert_asset}
use openclaw_observatory.Exec.{Exec, Result, ok, err, value_error}

-- an entry of `SEED_ASSETS`, before the two time stamps
abbrev pub Seed : Type 0
Seed = ℕ → FleetAsset

abbrev pub rpsg01 : Seed
rpsg01 now = record {
  fleet_id = "RPSG01";
  asset_type = AssetType.node;
  nickname = none;
  hostname = "raspberrypi-sg01";
  role = "Fleet host";
  location = "Singapore";
  platform = "Raspberry Pi";
  os = "Linux (Raspberry Pi OS)";
  software_version = none;
  host_fleet_id = none;
  deployment_role = none;
  service_version = none;
  capabilities = "telemetry" ∷ "heartbeat" ∷ "docker" ∷ [];
  tags = "production" ∷ "singapore" ∷ "edge" ∷ [];
  status = LifecycleStatus.active;
  environment = Environment.production;
  registered_at = now;
  updated_at = now;
}

abbrev pub a001 : Seed
a001 now = record {
  fleet_id = "A001";
  asset_type = AssetType.agent;
  nickname = none;
  hostname = "raspberrypi-sg01";
  role = "Autonomous Software Engineering Agent";
  location = "Singapore";
  platform = "OpenClaw";
  os = "Linux";
  software_version = none;
  host_fleet_id = some "RPSG01";
  deployment_role = none;
  service_version = none;
  capabilities = "telemetry" ∷ "heartbeat" ∷ "missions" ∷ [];
  tags = "production" ∷ "singapore" ∷ "agent" ∷ [];
  status = LifecycleStatus.active;
  environment = Environment.production;
  registered_at = now;
  updated_at = now;
}

abbrev pub obln01 : Seed
obln01 now = record {
  fleet_id = "OBLN01";
  asset_type = AssetType.service;
  nickname = none;
  hostname = "raspberrypi-sg01";
  role = "Observatory Backend";
  location = "Singapore";
  platform = "FastAPI / Python";
  os = "Linux";
  software_version = none;
  host_fleet_id = some "RPSG01";
  deployment_role = some DeploymentRole.local;
  service_version = some "v1";
  capabilities = "ingestion" ∷ "registry" ∷ "missions" ∷ "heartbeat" ∷ "metrics" ∷ [];
  tags = "production" ∷ "singapore" ∷ "critical" ∷ [];
  status = LifecycleStatus.active;
  environment = Environment.production;
  registered_at = now;
  updated_at = now;
}

abbrev pub seed_assets : List Seed
seed_assets = rpsg01 ∷ a001 ∷ obln01 ∷ []

-- the host must be known: `host_id is not None and get_asset(host_id) is None` raises
unfoldable pub host_missing : Option String → RegistryStore → Result Bool
host_missing none s = ok false
host_missing (some host) s = elim (get_asset host s) [ err e ↦ err e | ok o ↦ ok (not (is_some o)) ]

-- one new entry
unfoldable pub create : FleetAsset → Exec RegistryStore (Unit {0})
unfolding host_missing
create asset s =
    if not (service_relationships asset)
    then (err value_error, s)
    else elim (host_missing asset.host_fleet_id s) [
      | err e ↦ (err e, s)
      | ok true ↦ (err value_error, s)
      | ok false ↦ upsert_asset asset s
    ]

-- The loop; an entry whose id is registered is skipped.
unfoldable pub seed_loop : (ℕ → ℕ) → ℕ → List Seed → Exec RegistryStore ℕ
unfolding create
seed_loop clock created [] s = (ok created, s)
seed_loop clock created (entry ∷ rest) s =
    let asset : FleetAsset = entry (clock created) in
    let skipped = seed_loop clock created rest s in
    let (r, s') = create asset s in
    let next = seed_loop clock (suc created) rest s' in
    elim (get_asset asset.fleet_id s) [
      | err e ↦ (err e, s)
      | ok (some _) ↦ skipped
      | ok none ↦ elim r [ err e ↦ (err e, s') | ok _ ↦ next ]
    ]

unfoldable pub seed_registry : (ℕ → ℕ) → Exec RegistryStore ℕ
unfolding seed_loop
seed_registry clock = seed_loop clock 0 seed_assets
