-- ===== src/Storage/Keyed.antt =====
-- The three stores of latest records: a dict from a key, `fleet_id` or `mission_id`, to the record.
-- `InMemoryRegistryStorage`, `InMemoryMissionStorage` and `InMemoryHostInventoryStorage` are it.
use openclaw_observatory.Prelude.{String, Bool, Option, none, some, List, [], ◌∷◌, if◌then◌else◌}
use openclaw_observatory.Prelude.Dict.{Dict, lookup, insert, keys}
use openclaw_observatory.Prelude.Sort.{sorted}
use openclaw_observatory.Models.Inventory.{HostInventoryRecord}
use openclaw_observatory.Models.Mission.{MissionRecord}
use openclaw_observatory.Models.Registry.{FleetAsset}
use openclaw_observatory.Exec.{Exec, Result, storage_error, ok, err}

pub record Keyed (V : Type 0) : Type 0 where
  pub records : Dict V
  pub fail : Bool

module _ {V : Type 0} where
  abbrev pub upsert : String → V → Exec (Keyed V) (Unit {0})
  upsert key v s =
      if s.fail
      then (err storage_error, s)
      else (ok tt, record s { records = insert key v s.records })

  -- Reads change nothing, so they return the result alone.
  abbrev pub fetch : String → Keyed V → Result (Option V)
  fetch key s = if s.fail then err storage_error else ok (lookup key s.records)

  -- `[d[key] for key in ks]`, over keys of `d`
  unfoldable pub items_at : Dict V → List String → List V
  items_at d [] = []
  items_at d (k ∷ ks) = elim (lookup k d) [ none ↦ items_at d ks | some v ↦ v ∷ items_at d ks ]

  abbrev list_all : Keyed V → Result (List V)
  list_all s =
      if s.fail then err storage_error else ok (items_at s.records (sorted (keys s.records)))

abbrev pub RegistryStore : Type 0
RegistryStore = Keyed FleetAsset

unfoldable pub upsert_asset : FleetAsset → Exec RegistryStore (Unit {0})
upsert_asset asset = upsert asset.fleet_id asset

unfoldable pub get_asset : String → RegistryStore → Result (Option FleetAsset)
get_asset fleet_id = fetch fleet_id

unfoldable pub list_assets : RegistryStore → Result (List FleetAsset)
list_assets = list_all

abbrev pub InventoryStore : Type 0
InventoryStore = Keyed HostInventoryRecord

unfoldable pub upsert_inventory : HostInventoryRecord → Exec InventoryStore (Unit {0})
upsert_inventory r = upsert r.fleet_id r

unfoldable pub get_inventory : String → InventoryStore → Result (Option HostInventoryRecord)
get_inventory fleet_id = fetch fleet_id

unfoldable pub list_inventories : InventoryStore → Result (List HostInventoryRecord)
list_inventories = list_all

abbrev pub MissionStore : Type 0
MissionStore = Keyed MissionRecord

unfoldable pub upsert_mission : MissionRecord → Exec MissionStore (Unit {0})
upsert_mission r = upsert r.mission_id r

unfoldable pub get_mission : String → MissionStore → Result (Option MissionRecord)
get_mission mission_id = fetch mission_id

unfoldable pub list_missions : MissionStore → Result (List MissionRecord)
list_missions = list_all
