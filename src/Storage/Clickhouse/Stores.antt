-- ===== src/Storage/Clickhouse/Stores.antt =====
-- The operations of the registry, mission and inventory storages of
-- backend/app/storage/clickhouse.py. `revision` is what `_revision()` reads of the clock.
use openclaw_observatory.Prelude.{ℕ, String, Option, some}
use openclaw_observatory.Json.{Fields}
use openclaw_observatory.Models.Inventory.{HostInventoryRecord}
use openclaw_observatory.Models.Mission.{MissionRecord}
use openclaw_observatory.Models.Registry.{FleetAsset}
use openclaw_observatory.Exec.{Exec}
use openclaw_observatory.Storage.Clickhouse.{Table, Connection, upsert_row, get_row}
use openclaw_observatory.Storage.Clickhouse.Assets.{AssetRow, asset_row, row_to_asset}
use openclaw_observatory.Storage.Clickhouse.Rows.{
  MissionRow, mission_row, row_to_mission, InventoryRow, inventory_row, row_to_inventory,
}

module _ (T : Table AssetRow) where
  unfoldable pub upsert_asset : FleetAsset → ℕ → Exec (Connection T.State) (Unit {0})
  unfolding upsert_row asset_row
  upsert_asset asset revision = upsert_row T "registry_upsert" (asset_row asset revision)

  unfoldable pub get_asset : String → Exec (Connection T.State) (Option FleetAsset)
  unfolding get_row row_to_asset
  get_asset fleet_id = get_row T "registry_get" row_to_asset fleet_id

module _ (T : Table MissionRow) where
  unfoldable pub upsert_mission : MissionRecord → ℕ → Exec (Connection T.State) (Unit {0})
  unfolding upsert_row mission_row
  upsert_mission r revision = upsert_row T "mission_upsert" (mission_row r revision)

  unfoldable pub get_mission : String → Exec (Connection T.State) (Option MissionRecord)
  unfolding get_row row_to_mission
  get_mission mission_id = get_row T "mission_get" (λ row. some (row_to_mission row)) mission_id

module _ (dumps : Fields → String) (loads : String → Option Fields) (T : Table InventoryRow) where
  unfoldable pub upsert_inventory : HostInventoryRecord → ℕ → Exec (Connection T.State) (Unit {0})
  unfolding upsert_row inventory_row
  upsert_inventory r revision =
      upsert_row T "inventory_upsert" (inventory_row dumps loads r revision)

  unfoldable pub get_inventory : String → Exec (Connection T.State) (Option HostInventoryRecord)
  unfolding get_row row_to_inventory
  get_inventory fleet_id = get_row T "inventory_get" (row_to_inventory dumps loads) fleet_id
