-- ===== src/Examples/Accounts.antt =====
-- The theorems on keys, seeding and the read routes at concrete inputs.
use openclaw_observatory.Prelude.{ℕ, ◌≡◌, refl, String, false, none, some, [], ◌∷◌, ◌≢◌, In, here}
use openclaw_observatory.Prelude.Dict.{lookup, insert}
use openclaw_observatory.Prelude.Sort.{sort_desc}
use openclaw_observatory.Models.Registry.{FleetAsset}
use openclaw_observatory.Storage.Keyed.{RegistryStore}
use openclaw_observatory.Storage.Events.{query_events}
use openclaw_observatory.Config.Keys.{checked_bindings, keys_unique}
use openclaw_observatory.Auth.{authenticate, match_keys, require_collector}
use openclaw_observatory.Auth.Binding.{authenticate_sound}
use openclaw_observatory.Auth.Configured.{configured_key_authenticates}
use openclaw_observatory.Exec.{ok, err, http_exception}
use openclaw_observatory.Seed.{seed_registry, rpsg01, a001, obln01}
use openclaw_observatory.Seed.Once.{seed_registers_all, seed_keeps_registered}
use openclaw_observatory.Api.{get_fleet_asset, get_host_inventory, get_docker_status, list_events}
use openclaw_observatory.Api.Reads.{unknown_asset_not_found}
use openclaw_observatory.Examples.{sample_bindings, collector, fresh_world, sample_settings, host}

bindings_checked : checked_bindings sample_bindings ≡ some sample_bindings
unfolding checked_bindings keys_unique lookup insert
bindings_checked = refl

configured_key_authenticates_example :
    authenticate sample_bindings (some "key-a")
    ≡ some (record { method = "api_key"; subject = "RPSG01" })
configured_key_authenticates_example =
    configured_key_authenticates sample_bindings sample_bindings "RPSG01" "key-a" bindings_checked
      (here refl)

abbrev key_a : String
key_a = "key-a"

collector_authenticated : authenticate sample_bindings (some "key-a") ≡ some collector
unfolding authenticate match_keys
collector_authenticated = refl

authenticate_sound_example :
    In ("RPSG01", "key-a") sample_bindings × (key_a ≢ "") × (collector.method ≡ "api_key")
authenticate_sound_example =
    authenticate_sound sample_bindings "key-a" collector collector_authenticated

abbrev no_assets : RegistryStore
no_assets = record { records = []; fail = false }

seed_registers_all_example :
    let (r, s) = seed_registry (λ k. k) no_assets in
    ((n : ℕ) × (r ≡ ok n))
    × ((x : FleetAsset) × (lookup "RPSG01" s.records ≡ some x))
    × ((x : FleetAsset) × (lookup "A001" s.records ≡ some x))
    × ((x : FleetAsset) × (lookup "OBLN01" s.records ≡ some x))
seed_registers_all_example = seed_registers_all (λ k. k) no_assets refl

host_stored : lookup "RPSG01" fresh_world.registry.records ≡ some host
unfolding lookup
host_stored = refl

seed_keeps_registered_example :
    lookup "RPSG01" (seed_registry (λ k. 9) fresh_world.registry).1.records ≡ some host
seed_keeps_registered_example =
    seed_keeps_registered (λ k. 9) fresh_world.registry "RPSG01" host host_stored

abbrev seeded : RegistryStore
seeded = record {
  records = ("RPSG01", rpsg01 0) ∷ ("A001", a001 0) ∷ ("OBLN01", obln01 0) ∷ [];
  fail = false;
}

seeded_host : lookup "RPSG01" seeded.records ≡ some (rpsg01 0)
unfolding lookup
seeded_host = refl

seeded_agent : lookup "A001" seeded.records ≡ some (a001 0)
unfolding lookup
seeded_agent = refl

seeded_backend : lookup "OBLN01" seeded.records ≡ some (obln01 0)
unfolding lookup
seeded_backend = refl

no_events_listed : (list_events sample_bindings (some "key-a") none none 5 fresh_world).0 ≡ ok []
unfolding list_events require_collector authenticate match_keys query_events sort_desc
no_events_listed = refl

nobody : lookup "X" fresh_world.registry.records ≡ none
unfolding lookup
nobody = refl

unknown_asset_not_found_example :
    ((get_fleet_asset sample_bindings (some "key-a") sample_settings 0 "X" fresh_world).0
      ≡ err (http_exception 404))
    × ((get_host_inventory sample_bindings (some "key-a") sample_settings 0 "X" fresh_world).0
        ≡ err (http_exception 404))
    × ((get_docker_status sample_bindings (some "key-a") sample_settings 0 "X" fresh_world).0
        ≡ err (http_exception 404))
unknown_asset_not_found_example =
    unknown_asset_not_found sample_bindings (some "key-a") sample_settings fresh_world 0 "X"
      "RPSG01" collector_authenticated refl nobody
