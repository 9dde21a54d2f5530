-- ===== src/Storage/Clickhouse/Answers.antt =====
-- The mission and registry storages of backend/app/storage/clickhouse.py give the answers of the
-- in-memory ones.
use openclaw_observatory.Prelude.{ℕ, ◌≡◌, ap, refl, String, true, false, some, List, [], ◌∷◌}
use openclaw_observatory.Models.Mission.{MissionRecord}
use openclaw_observatory.Models.Registry.{FleetAsset, service_relationships}
use openclaw_observatory.Storage.Keyed
use openclaw_observatory.Storage.Clickhouse.{Table, IsReplacing}
use openclaw_observatory.Storage.Clickhouse.Assets.{AssetRow, asset_row, row_to_asset}
use openclaw_observatory.Storage.Clickhouse.Rows.{MissionRow, mission_row, row_to_mission}
use openclaw_observatory.Storage.Clickhouse.Stores.{
  upsert_asset, get_asset, upsert_mission, get_mission,
}
use openclaw_observatory.Storage.Clickhouse.Codec.{
  kept_asset, stored_asset, row_to_asset-asset_row, kept_mission, stored_mission,
  row_to_mission-mission_row,
}
use openclaw_observatory.Storage.Clickhouse.Refinement.{
  Op, put, set_down, Increasing, history, connect, answer, Codec, IsCodec, AllStorable,
  fresh_answers,
}

abbrev mission_codec : (ℕ → ℕ) → Codec MissionRow MissionRecord
mission_codec keep = record {
  key = λ row. row.mission_id;
  revision = λ row. row.revision;
  kept = kept_mission keep;
  to_row = mission_row;
  from_row = λ row. some (row_to_mission row);
  id = λ r. r.mission_id;
  stored = stored_mission keep;
  Storable = λ r. Unit;
}

mission_codec-IsCodec : (keep : ℕ → ℕ) → IsCodec (mission_codec keep)
unfolding mission_row
mission_codec-IsCodec keep = record {
  key-to_row = λ r n. refl;
  revision-kept = λ r n. refl;
  revision-to_row = λ r n. refl;
  from_row-kept = λ r n s. ap some (row_to_mission-mission_row keep r n);
}

all_storable :
    (keep : ℕ → ℕ) (T : Table MissionRow)
    (law : IsReplacing (λ row. row.mission_id) (λ row. row.revision) (kept_mission keep) T)
    (ops : List (Op MissionRecord))
    → AllStorable T (mission_codec keep) (mission_codec-IsCodec keep) law "mission_upsert" ops
all_storable keep T law [] = tt
all_storable keep T law (put v r ∷ ops) = (tt, all_storable keep T law ops)
all_storable keep T law (set_down b ∷ ops) = all_storable keep T law ops

-- Over any history of upserts and outages in which the clock's revisions increase, on a table that
-- shows the row of the greatest revision, the ClickHouse mission storage answers each `get_mission`
-- as the in-memory one: with an error while the database is down, else with the last record put in
-- while it was up, its instants cut to the columns' precision and its empty optional texts missing.
pub mission_storage_refines :
    (keep : ℕ → ℕ) (T : Table MissionRow)
    (law : IsReplacing (λ row. row.mission_id) (λ row. row.revision) (kept_mission keep) T)
    (ops : List (Op MissionRecord))
    → Increasing 0 ops
    → (k : String)
    → (get_mission T k (
        history
          (λ r n c. (upsert_mission T r n c).1)
          (λ b c. record c { down = b })
          ops
          (connect T.fresh))).0
      ≡ answer (stored_mission keep) (
          Keyed.get_mission k (
            history
              (λ r n m. (Keyed.upsert_mission r m).1)
              (λ b m. record m { fail = b })
              ops
              (record { records = []; fail = false })))
unfolding get_mission upsert_mission Keyed.get_mission Keyed.upsert_mission
mission_storage_refines keep T law ops inc k =
    fresh_answers T (mission_codec keep) (mission_codec-IsCodec keep) law "mission_upsert" ops inc
      (all_storable keep T law ops) "mission_get" k

abbrev asset_codec : (ℕ → ℕ) → Codec AssetRow FleetAsset
asset_codec keep = record {
  key = λ row. row.fleet_id;
  revision = λ row. row.revision;
  kept = kept_asset keep;
  to_row = asset_row;
  from_row = row_to_asset;
  id = λ a. a.fleet_id;
  stored = stored_asset keep;
  Storable = λ a. service_relationships (stored_asset keep a) ≡ true;
}

asset_codec-IsCodec : (keep : ℕ → ℕ) → IsCodec (asset_codec keep)
unfolding asset_row
asset_codec-IsCodec keep = record {
  key-to_row = λ a n. refl;
  revision-kept = λ a n. refl;
  revision-to_row = λ a n. refl;
  from_row-kept = λ a n s. row_to_asset-asset_row keep a n s;
}

-- Every asset put in is valid once its empty optional texts are missing.
abbrev pub AllValid : (ℕ → ℕ) → List (Op FleetAsset) → Type 0
AllValid keep [] = Unit
AllValid keep (put a r ∷ ops) =
    (service_relationships (stored_asset keep a) ≡ true) × AllValid keep ops
AllValid keep (set_down b ∷ ops) = AllValid keep ops

valid_storable :
    (keep : ℕ → ℕ) (T : Table AssetRow)
    (law : IsReplacing (λ row. row.fleet_id) (λ row. row.revision) (kept_asset keep) T)
    (ops : List (Op FleetAsset))
    → AllValid keep ops
    → AllStorable T (asset_codec keep) (asset_codec-IsCodec keep) law "registry_upsert" ops
valid_storable keep T law [] valid = tt
valid_storable keep T law (put v r ∷ ops) (s, valid) = (s, valid_storable keep T law ops valid)
valid_storable keep T law (set_down b ∷ ops) valid = valid_storable keep T law ops valid

-- So does the ClickHouse registry storage with `get_asset`, for assets that are valid once their empty
-- optional texts are missing.
pub asset_storage_refines :
    (keep : ℕ → ℕ) (T : Table AssetRow)
    (law : IsReplacing (λ row. row.fleet_id) (λ row. row.revision) (kept_asset keep) T)
    (ops : List (Op FleetAsset))
    → Increasing 0 ops
    → AllValid keep ops
    → (k : String)
    → (get_asset T k (
        history
          (λ a n c. (upsert_asset T a n c).1)
          (λ b c. record c { down = b })
          ops
          (connect T.fresh))).0
      ≡ answer (stored_asset keep) (
          Keyed.get_asset k (
            history
              (λ a n m. (Keyed.upsert_asset a m).1)
              (λ b m. record m { fail = b })
              ops
              (record { records = []; fail = false })))
unfolding get_asset upsert_asset Keyed.get_asset Keyed.upsert_asset
asset_storage_refines keep T law ops inc valid k =
    fresh_answers T (asset_codec keep) (asset_codec-IsCodec keep) law "registry_upsert" ops inc
      (valid_storable keep T law ops valid) "registry_get" k
