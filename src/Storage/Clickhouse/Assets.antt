-- ===== src/Storage/Clickhouse/Assets.antt =====
-- The registry rows of backend/app/storage/clickhouse.py and their conversions. A missing text is
-- stored as the empty one; instants are UTC throughout.
use openclaw_observatory.Prelude.Options.{◌>>=◌}
use openclaw_observatory.Prelude.{ℕ, String, Option, none, some, List, ◌==◌, if◌then◌else◌}
use openclaw_observatory.Models.Registry.{
  DeploymentRole, Environment, FleetAsset, service_relationships,
}
use openclaw_observatory.Models.Registry.Values.{
  asset_type_value, asset_type_of, deployment_role_value, deployment_role_of, status_value,
  status_of, environment_value, environment_of,
}

-- `value or ""` and `value or None`
abbrev pub or_empty : Option String → String
or_empty none = ""
or_empty (some s) = s

abbrev pub or_none : String → Option String
or_none s = if s == "" then none else some s

-- `_REGISTRY_COLUMNS`
pub record AssetRow : Type 0 where
  pub fleet_id : String
  pub asset_type : String
  pub nickname : String
  pub hostname : String
  pub role : String
  pub location : String
  pub platform : String
  pub os : String
  pub software_version : String
  pub host_fleet_id : String
  pub deployment_role : String
  pub service_version : String
  pub capabilities : List String
  pub tags : List String
  pub status : String
  pub environment : String
  pub registered_at : ℕ
  pub updated_at : ℕ
  pub revision : ℕ

abbrev pub role_or_empty : Option DeploymentRole → String
role_or_empty none = ""
role_or_empty (some r) = deployment_role_value r

-- the row of `upsert_asset`
unfoldable pub asset_row : FleetAsset → ℕ → AssetRow
asset_row asset revision = record {
  fleet_id = asset.fleet_id;
  asset_type = asset_type_value asset.asset_type;
  nickname = or_empty asset.nickname;
  hostname = asset.hostname;
  role = asset.role;
  location = asset.location;
  platform = asset.platform;
  os = asset.os;
  software_version = or_empty asset.software_version;
  host_fleet_id = or_empty asset.host_fleet_id;
  deployment_role = role_or_empty asset.deployment_role;
  service_version = or_empty asset.service_version;
  capabilities = asset.capabilities;
  tags = asset.tags;
  status = status_value asset.status;
  environment = environment_value asset.environment;
  registered_at = asset.registered_at;
  updated_at = asset.updated_at;
  revision = revision;
}

-- `DeploymentRole(deployment_role) if deployment_role else None`
unfoldable pub optional_role : String → Option (Option DeploymentRole)
unfolding deployment_role_of
optional_role s =
    if s == ""
    then some none
    else elim (deployment_role_of s) [ none ↦ none | some r ↦ some (some r) ]

-- `Environment(environment) if environment else Environment.DEVELOPMENT`
unfoldable pub environment_or_default : String → Option Environment
unfolding environment_of
environment_or_default s = if s == "" then some Environment.development else environment_of s

-- The model validator runs on what is built.
abbrev pub validated : FleetAsset → Option FleetAsset
validated asset = if service_relationships asset then some asset else none

unfoldable pub row_to_asset : AssetRow → Option FleetAsset
unfolding asset_type_of optional_role status_of environment_or_default
row_to_asset row = do
  asset_type ← asset_type_of row.asset_type
  deployment_role ← optional_role row.deployment_role
  status ← status_of row.status
  environment ← environment_or_default row.environment
  validated (record {
    fleet_id = row.fleet_id;
    asset_type = asset_type;
    nickname = or_none row.nickname;
    hostname = row.hostname;
    role = row.role;
    location = row.location;
    platform = row.platform;
    os = row.os;
    software_version = or_none row.software_version;
    host_fleet_id = or_none row.host_fleet_id;
    deployment_role = deployment_role;
    service_version = or_none row.service_version;
    capabilities = row.capabilities;
    tags = row.tags;
    status = status;
    environment = environment;
    registered_at = row.registered_at;
    updated_at = row.updated_at;
  })
