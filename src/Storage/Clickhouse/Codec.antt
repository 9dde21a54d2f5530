-- ===== src/Storage/Clickhouse/Codec.antt =====
-- What the tables give back of what was put in. `keep` is what a DateTime64(3) column keeps of an
-- instant.
use openclaw_observatory.Prelude.{
  ℕ, ◌≡◌, refl, String, true, Option, none, some, ◌==◌, if◌then◌else◌,
}
use openclaw_observatory.Json.{Fields}
use openclaw_observatory.Models.Event.{Event}
use openclaw_observatory.Models.Inventory.{HostInventoryRecord}
use openclaw_observatory.Models.Mission.{MissionRecord}
use openclaw_observatory.Models.Registry.{
  AssetType, DeploymentRole, LifecycleStatus, Environment, FleetAsset, service_relationships,
}
use openclaw_observatory.Models.Registry.Values.{
  asset_type_value, asset_type_of, deployment_role_of, status_value, status_of, environment_value,
  environment_of,
}
use openclaw_observatory.Storage.Clickhouse.Assets.{
  or_empty, or_none, AssetRow, asset_row, row_to_asset, optional_role, role_or_empty,
  environment_or_default,
}
use openclaw_observatory.Storage.Clickhouse.Rows.{
  MissionRow, mission_row, row_to_mission, InventoryRow, inventory_row, row_to_inventory, EventRow,
  event_row, row_to_event,
}

asset_type_back : (t : AssetType) → asset_type_of (asset_type_value t) ≡ some t
unfolding asset_type_of
asset_type_back AssetType.agent = refl
asset_type_back AssetType.node = refl
asset_type_back AssetType.service = refl
asset_type_back AssetType.device = refl
asset_type_back AssetType.sensor = refl

role_back : (r : Option DeploymentRole) → optional_role (role_or_empty r) ≡ some r
unfolding optional_role deployment_role_of
role_back none = refl
role_back (some DeploymentRole.local) = refl
role_back (some DeploymentRole.central) = refl

status_back : (s : LifecycleStatus) → status_of (status_value s) ≡ some s
unfolding status_of
status_back LifecycleStatus.provisioned = refl
status_back LifecycleStatus.commissioning = refl
status_back LifecycleStatus.active = refl
status_back LifecycleStatus.paused = refl
status_back LifecycleStatus.suspended = refl
status_back LifecycleStatus.retired = refl

environment_back : (e : Environment) → environment_or_default (environment_value e) ≡ some e
unfolding environment_or_default environment_of
environment_back Environment.production = refl
environment_back Environment.staging = refl
environment_back Environment.development = refl
environment_back Environment.test = refl

-- A text that is there but empty comes back as missing.
abbrev pub blanked : Option String → Option String
blanked none = none
blanked (some s) = if s == "" then none else some s

or_none-or_empty : (o : Option String) → or_none (or_empty o) ≡ blanked o
or_none-or_empty none = refl
or_none-or_empty (some s) = refl

abbrev pub kept_option : (ℕ → ℕ) → Option ℕ → Option ℕ
kept_option keep none = none
kept_option keep (some t) = some (keep t)

module _ (keep : ℕ → ℕ) where
  abbrev pub kept_asset : AssetRow → AssetRow
  kept_asset row = record row {
    registered_at = keep row.registered_at;
    updated_at = keep row.updated_at;
  }

  -- the asset that comes back
  abbrev pub stored_asset : FleetAsset → FleetAsset
  stored_asset a = record a {
    nickname = blanked a.nickname;
    software_version = blanked a.software_version;
    host_fleet_id = blanked a.host_fleet_id;
    service_version = blanked a.service_version;
    registered_at = keep a.registered_at;
    updated_at = keep a.updated_at;
  }

  -- A registered asset comes back from its row, but that empty optional texts are missing and instants
  -- are cut to the column's precision, if with its empty texts missing it is still a valid asset.
  pub row_to_asset-asset_row :
      (a : FleetAsset) (revision : ℕ)
      → service_relationships (stored_asset a) ≡ true
      → row_to_asset (kept_asset (asset_row a revision)) ≡ some (stored_asset a)
  unfolding row_to_asset asset_row
  row_to_asset-asset_row a revision valid =
      rw
        (
          asset_type_back a.asset_type,
          role_back a.deployment_role,
          status_back a.status,
          environment_back a.environment,
          or_none-or_empty a.nickname,
          or_none-or_empty a.software_version,
          or_none-or_empty a.host_fleet_id,
          or_none-or_empty a.service_version,
          valid,
        )
        refl

  abbrev pub kept_mission : MissionRow → MissionRow
  kept_mission row = record row {
    created_at = keep row.created_at;
    started_at = kept_option keep row.started_at;
    completed_at = kept_option keep row.completed_at;
    updated_at = keep row.updated_at;
  }

  -- the record that comes back
  abbrev pub stored_mission : MissionRecord → MissionRecord
  stored_mission r = record r {
    assigned_agent = blanked r.assigned_agent;
    created_at = keep r.created_at;
    started_at = kept_option keep r.started_at;
    completed_at = kept_option keep r.completed_at;
    pr_ref = blanked r.pr_ref;
    commit_sha = blanked r.commit_sha;
    updated_at = keep r.updated_at;
  }

  -- So does a mission record, without a condition.
  pub row_to_mission-mission_row :
      (r : MissionRecord) (revision : ℕ)
      → row_to_mission (kept_mission (mission_row r revision)) ≡ stored_mission r
  unfolding row_to_mission mission_row
  row_to_mission-mission_row r revision =
      rw
        (
          or_none-or_empty r.assigned_agent,
          or_none-or_empty r.pr_ref,
          or_none-or_empty r.commit_sha,
        )
        refl

  abbrev pub kept_inventory : InventoryRow → InventoryRow
  kept_inventory row = record row {
    reported_at = keep row.reported_at;
    updated_at = keep row.updated_at;
  }

  abbrev pub kept_event : EventRow → EventRow
  kept_event row = record row { timestamp = keep row.timestamp; received_at = keep row.received_at }

  module _ (dumps : Fields → String) (loads : String → Option Fields) where
    -- An inventory comes back with its payload, where that is read back from its text.
    pub row_to_inventory-inventory_row :
        (r : HostInventoryRecord) (revision : ℕ)
        → loads (dumps r.payload) ≡ some r.payload
        → row_to_inventory dumps loads (kept_inventory (inventory_row dumps loads r revision))
          ≡ some (record r { reported_at = keep r.reported_at; updated_at = keep r.updated_at })
    unfolding row_to_inventory inventory_row
    row_to_inventory-inventory_row r revision h = rw h refl

    -- An event comes back with its payload, where that is read back from its text.
    pub row_to_event-event_row :
        (e : Event)
        → loads (dumps e.payload) ≡ some e.payload
        → row_to_event dumps loads (kept_event (event_row dumps loads e))
          ≡ some (record e { timestamp = keep e.timestamp; received_at = keep e.received_at })
    unfolding row_to_event event_row
    row_to_event-event_row e h = rw h refl
