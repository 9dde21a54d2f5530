-- ===== src/Models/Registry/Values.antt =====
-- The text values of the enumerations of backend/app/models/registry.py.
use openclaw_observatory.Prelude.{String, Option, none, some, ◌==◌, if◌then◌else◌}
use openclaw_observatory.Models.Registry.{AssetType, DeploymentRole, LifecycleStatus, Environment}

-- The values of the enumerations, and `AssetType(s)` and the like; `none` is `ValueError`.
abbrev pub asset_type_value : AssetType → String
asset_type_value AssetType.agent = "agent"
asset_type_value AssetType.node = "node"
asset_type_value AssetType.service = "service"
asset_type_value AssetType.device = "device"
asset_type_value AssetType.sensor = "sensor"

unfoldable pub asset_type_of : String → Option AssetType
asset_type_of s =
    if s == "agent"
    then some AssetType.agent
    else if s == "node"
    then some AssetType.node
    else if s == "service"
    then some AssetType.service
    else if s == "device"
    then some AssetType.device
    else if s == "sensor"
    then some AssetType.sensor
    else none

abbrev pub deployment_role_value : DeploymentRole → String
deployment_role_value DeploymentRole.local = "local"
deployment_role_value DeploymentRole.central = "central"

unfoldable pub deployment_role_of : String → Option DeploymentRole
deployment_role_of s =
    if s == "local"
    then some DeploymentRole.local
    else if s == "central"
    then some DeploymentRole.central
    else none

abbrev pub status_value : LifecycleStatus → String
status_value LifecycleStatus.provisioned = "Provisioned"
status_value LifecycleStatus.commissioning = "Commissioning"
status_value LifecycleStatus.active = "Active"
status_value LifecycleStatus.paused = "Paused"
status_value LifecycleStatus.suspended = "Suspended"
status_value LifecycleStatus.retired = "Retired"

unfoldable pub status_of : String → Option LifecycleStatus
status_of s =
    if s == "Provisioned"
    then some LifecycleStatus.provisioned
    else if s == "Commissioning"
    then some LifecycleStatus.commissioning
    else if s == "Active"
    then some LifecycleStatus.active
    else if s == "Paused"
    then some LifecycleStatus.paused
    else if s == "Suspended"
    then some LifecycleStatus.suspended
    else if s == "Retired"
    then some LifecycleStatus.retired
    else none

abbrev pub environment_value : Environment → String
environment_value Environment.production = "Production"
environment_value Environment.staging = "Staging"
environment_value Environment.development = "Development"
environment_value Environment.test = "Test"

unfoldable pub environment_of : String → Option Environment
environment_of s =
    if s == "Production"
    then some Environment.production
    else if s == "Staging"
    then some Environment.staging
    else if s == "Development"
    then some Environment.development
    else if s == "Test"
    then some Environment.test
    else none
