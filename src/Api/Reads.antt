-- ===== src/Api/Reads.antt =====
-- What the read routes promise.
use openclaw_observatory.Prelude.{
  ℕ, ◌≤◌, ◌≡◌, String, false, Option, none, some, List, arith, length, length-take_le, select,
}
use openclaw_observatory.Prelude.Sort.{sort_desc}
use openclaw_observatory.Config.{Settings}
use openclaw_observatory.Models.Event.{Event}
use openclaw_observatory.Storage.Events.{Query, query_events, selected}
use openclaw_observatory.Storage.Keyed
use openclaw_observatory.Prelude.Dict.{lookup}
use openclaw_observatory.Auth.{authenticate, require_collector}
use openclaw_observatory.Exec.{ok, err, http_exception}
use openclaw_observatory.World.{World}
use openclaw_observatory.Registry.{get_view}
use openclaw_observatory.Api.{
  list_fleet, get_fleet_asset, get_host_inventory, get_docker_status, list_missions, get_mission,
  list_events,
}

module _ (bindings : List (String × String)) (api_key : Option String) (settings : Settings)
    (w : World) where
  -- Without a credential that authenticates, every read route answers 401 and shows nothing.
  anonymous_refused :
      (clock : ℕ → ℕ) (now : ℕ) (id : String) (c t : Option String) (limit : ℕ)
      → authenticate bindings api_key ≡ none
      → (list_fleet bindings api_key settings clock w ≡ (err (http_exception 401), w))
        × (get_fleet_asset bindings api_key settings now id w ≡ (err (http_exception 401), w))
        × (get_host_inventory bindings api_key settings now id w ≡ (err (http_exception 401), w))
        × (get_docker_status bindings api_key settings now id w ≡ (err (http_exception 401), w))
        × (list_missions bindings api_key w ≡ (err (http_exception 401), w))
        × (get_mission bindings api_key id w ≡ (err (http_exception 401), w))
        × (list_events bindings api_key c t limit w ≡ (err (http_exception 401), w))
  unfolding list_fleet get_fleet_asset get_host_inventory get_docker_status list_missions
      get_mission list_events require_collector
  anonymous_refused clock now id c t limit e = ground (arith, e)

  -- No read route changes any state, whatever its answer.
  reads_change_nothing :
      (clock : ℕ → ℕ) (now : ℕ) (id : String) (c t : Option String) (limit : ℕ)
      → ((list_fleet bindings api_key settings clock w).1 ≡ w)
        × ((get_fleet_asset bindings api_key settings now id w).1 ≡ w)
        × ((get_host_inventory bindings api_key settings now id w).1 ≡ w)
        × ((get_docker_status bindings api_key settings now id w).1 ≡ w)
        × ((list_missions bindings api_key w).1 ≡ w)
        × ((get_mission bindings api_key id w).1 ≡ w)
        × ((list_events bindings api_key c t limit w).1 ≡ w)
  unfolding list_fleet get_fleet_asset get_host_inventory get_docker_status list_missions
      get_mission list_events require_collector
  reads_change_nothing clock now id c t limit = ground arith

  -- The events route answers with at most 500 events, and none beyond the limit asked for.
  list_events_bounded :
      (c t : Option String) (limit : ℕ) (es : List Event)
      → (list_events bindings api_key c t limit w).0 ≡ ok es
      → (length es ≤ limit) × (length es ≤ 500)
  unfolding list_events query_events require_collector
  list_events_bounded c t limit es h =
      let q : Query = record {
        collector_id = c;
        event_type = t;
        event_types = none;
        limit = limit;
      } in
      ground (
        arith,
        length-take_le limit (sort_desc (λ e. e.received_at) (select (selected q) w.events.events)),
      )

  -- An identity that is not registered is answered 404 by each route for one asset.
  pub unknown_asset_not_found :
      (now : ℕ) (id p : String)
      → authenticate bindings api_key ≡ some (record { method = "api_key"; subject = p })
      → w.registry.fail ≡ false
      → lookup id w.registry.records ≡ none
      → ((get_fleet_asset bindings api_key settings now id w).0 ≡ err (http_exception 404))
        × ((get_host_inventory bindings api_key settings now id w).0 ≡ err (http_exception 404))
        × ((get_docker_status bindings api_key settings now id w).0 ≡ err (http_exception 404))
  unfolding get_fleet_asset get_host_inventory get_docker_status require_collector get_view
      Keyed.get_asset
  unknown_asset_not_found now id p a up unknown = ground (arith, a, up, unknown)
