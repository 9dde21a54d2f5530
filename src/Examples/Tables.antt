-- ===== src/Examples/Tables.antt =====
-- The ClickHouse storages at concrete tables.
use openclaw_observatory.Prelude.{
  ℕ, ◌*◌, ◌/◌, ◌++◌, arith, ◌≡◌, refl, String, Bool, true, false, none, some, List, [], ◌∷◌, ◌==◌,
  ◌||◌, not, any, if◌then◌else◌,
}
use openclaw_observatory.Exec.{ok}
use openclaw_observatory.Models.Mission.{MissionRecord}
use openclaw_observatory.Models.Registry.{
  AssetType, FleetAsset, LifecycleStatus, Environment, service_relationships,
}
use openclaw_observatory.Storage.Keyed
use openclaw_observatory.Storage.Clickhouse.{Table, IsReplacing}
use openclaw_observatory.Storage.Clickhouse.Assets.{asset_row, row_to_asset}
use openclaw_observatory.Storage.Clickhouse.Rows.{MissionRow}
use openclaw_observatory.Storage.Clickhouse.Stores.{get_mission, upsert_mission}
use openclaw_observatory.Storage.Clickhouse.Codec.{
  kept_mission, stored_mission, kept_asset, stored_asset, row_to_asset-asset_row,
}
use openclaw_observatory.Storage.Clickhouse.Refinement.{Op, put, set_down, answer, history, connect}
use openclaw_observatory.Storage.Clickhouse.Answers.{mission_storage_refines}
use openclaw_observatory.Storage.Clickhouse.Migrations.{
  Migration, Server, Engine, bootstrap, create_database, create_ledger,
}
use openclaw_observatory.Storage.Clickhouse.Migrations.IfNotExists.{IfNotExists, is_if_not_exists}
use openclaw_observatory.Prelude.Text.{after_prefix}
use openclaw_observatory.Storage.Clickhouse.Migrations.Applied.{bootstrap_idempotent}

-- milliseconds of a time in microseconds
abbrev millis : ℕ → ℕ
millis t = t / 1000 * 1000

-- a table that holds the newest row of each key
abbrev newest_rows : Table MissionRow
newest_rows = record {
  State = String → List MissionRow;
  fresh = λ k. [];
  insert = λ row s k. if row.mission_id == k then kept_mission millis row ∷ [] else s k;
  find = λ k s. s k;
}

newest_rows-IsReplacing :
    IsReplacing (λ row. row.mission_id) (λ row. row.revision) (kept_mission millis) newest_rows
newest_rows-IsReplacing = record { find-fresh = λ k. refl; find-insert = λ k row s newer. refl }

abbrev mission : String → ℕ → MissionRecord
mission state at = record {
  mission_id = "M1";
  title = "Survey";
  assigned_agent = some "";
  state = state;
  created_at = 1000500;
  started_at = none;
  completed_at = none;
  pr_ref = none;
  commit_sha = none;
  updated_at = at;
}

-- the second write falls into an outage
abbrev writes : List (Op MissionRecord)
writes =
    put (mission "Created" 1000500) 3
    ∷ set_down true
    ∷ put (mission "Queued" 2000) 4
    ∷ set_down false
    ∷ put (mission "Assigned" 3000700) 9
    ∷ []

mission_storage_refines_example :
    (get_mission newest_rows "M1" (
      history
        (λ r n c. (upsert_mission newest_rows r n c).1)
        (λ b c. record c { down = b })
        writes
        (connect newest_rows.fresh))).0
    ≡ answer (stored_mission millis) (
        Keyed.get_mission "M1" (
          history
            (λ r n m. (Keyed.upsert_mission r m).1)
            (λ b m. record m { fail = b })
            writes
            (record { records = []; fail = false })))
mission_storage_refines_example =
    mission_storage_refines millis newest_rows newest_rows-IsReplacing writes
      (omega arith, (omega arith, (omega arith, tt))) "M1"

abbrev probe : FleetAsset
probe = record {
  fleet_id = "BITAXE01";
  asset_type = AssetType.device;
  nickname = some "miner";
  hostname = "bitaxe";
  role = "miner";
  location = "lab";
  platform = "ESP32";
  os = "none";
  software_version = some "";
  host_fleet_id = none;
  deployment_role = none;
  service_version = none;
  capabilities = [];
  tags = [];
  status = LifecycleStatus.active;
  environment = Environment.production;
  registered_at = 1234567;
  updated_at = 7654321;
}

row_to_asset-asset_row_example :
    row_to_asset (kept_asset millis (asset_row probe 5)) ≡ some (stored_asset millis probe)
unfolding service_relationships
row_to_asset-asset_row_example = row_to_asset-asset_row millis probe 5 refl

abbrev migrations : List Migration
migrations =
    record { name = "0001_init.sql"; statements = "CREATE TABLE events" ∷ "CREATE VIEW v" ∷ [] }
    ∷ []

-- A server that refuses a command that it executed before, unless it asks for what may be there.
abbrev strict_engine : Engine
strict_engine = record {
  accepts = λ done x. is_if_not_exists x || not (any (λ y. y == x) done);
  selects = λ done. true;
  inserts = λ done. true;
}

or_first : (a b : Bool) → a ≡ true → (a || b) ≡ true
or_first a b h = ground (arith, h)

strict_engine-IfNotExists : IfNotExists strict_engine
strict_engine-IfNotExists = record {
  again = λ done x h m. or_first (is_if_not_exists x) _ h;
  readable = λ done x h r. refl;
}

abbrev server : Server
server = record { up = true; applied = []; commands = [] }

first_bootstrap : (bootstrap strict_engine "observatory" migrations server).0 ≡ ok tt
unfolding bootstrap create_database create_ledger after_prefix
first_bootstrap = refl

bootstrap_idempotent_example :
    let s' = (bootstrap strict_engine "observatory" migrations server).1 in
    bootstrap strict_engine "observatory" migrations s' ≡ (
      ok tt,
      record s' {
        commands = s'.commands ++ create_database "observatory" ∷ create_ledger "observatory" ∷ [];
      },
    )
bootstrap_idempotent_example =
    bootstrap_idempotent strict_engine strict_engine-IfNotExists "observatory" migrations server
      first_bootstrap refl
