-- ===== src/Models/Registry.antt =====
-- backend/app/models/registry.py: identity records of the Fleet Registry and their read model.
pub mod Values
use openclaw_observatory.Prelude.{ℕ, String, Bool, true, false, Option, none, some, List, is_some}
use openclaw_observatory.Prelude.Int.{ℤ}

pub data AssetType : Type 0 where
  agent node service device sensor : AssetType

pub data DeploymentRole : Type 0 where
  local central : DeploymentRole

pub data LifecycleStatus : Type 0 where
  provisioned commissioning active paused suspended retired : LifecycleStatus

pub data Environment : Type 0 where
  production staging development test : Environment

pub data Connectivity : Type 0 where
  online offline unknown : Connectivity

pub data HealthStatus : Type 0 where
  healthy warning critical offline unknown : HealthStatus

pub record FleetAsset : Type 0 where
  pub fleet_id : String
  pub asset_type : AssetType
  pub nickname : Option String
  pub hostname : String
  pub role : String
  pub location : String
  pub platform : String
  pub os : String
  pub software_version : Option String
  pub host_fleet_id : Option String
  pub deployment_role : Option DeploymentRole
  pub service_version : Option String
  pub capabilities : List String
  pub tags : List String
  pub status : LifecycleStatus
  pub environment : Environment
  pub registered_at : ℕ
  pub updated_at : ℕ

-- The model validator; `false` where it raises `ValueError`.
unfoldable pub service_relationships : FleetAsset → Bool
service_relationships asset = elim asset.asset_type [
  | AssetType.service ↦ elim asset.host_fleet_id [
    | none ↦ false
    | some _ ↦ is_some asset.deployment_role
  ]
  | _ ↦ elim asset.deployment_role [ none ↦ true | some _ ↦ false ]
]

pub record HeartbeatInfo : Type 0 where
  pub timestamp : ℕ
  pub received_at : ℕ
  pub software_version : Option String
  pub collector_version : Option String
  pub collector_type : Option String
  pub schema_version : Option ℕ
  pub uptime_seconds : Option ℤ
  pub failures_total : Option ℤ

pub record FleetAssetView : Type 0 where
  pub fleet_id : String
  pub asset_type : AssetType
  pub nickname : Option String
  pub hostname : String
  pub role : String
  pub location : String
  pub platform : String
  pub os : String
  pub software_version : Option String
  pub host_fleet_id : Option String
  pub deployment_role : Option DeploymentRole
  pub service_version : Option String
  pub capabilities : List String
  pub tags : List String
  pub status : LifecycleStatus
  pub environment : Environment
  pub registered_at : ℕ
  pub updated_at : ℕ
  pub last_heartbeat : Option HeartbeatInfo
  pub connectivity : Connectivity
  pub health : HealthStatus
