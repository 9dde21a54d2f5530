-- ===== src/Examples/Sweeps.antt =====
-- The theorems on storage, health and the offline detector at concrete inputs.
use openclaw_observatory.Prelude.{
  ℕ, ◌+◌, ◌≤◌, ◌≡◌, ◌↔◌, refl, String, true, false, ◌||◌, none, some, [], ◌∷◌, ◌++◌, In, here,
  length, arith,
}
use openclaw_observatory.Prelude.Int.{pos}
use openclaw_observatory.Prelude.Sort.{sort_desc}
use openclaw_observatory.Prelude.Dict.{lookup}
use openclaw_observatory.Json.{Value, Fields, end, field, get, as_float}
use openclaw_observatory.Models.Event.{Event}
use openclaw_observatory.Models.Mission.{is_valid_transition}
use openclaw_observatory.Models.Mission.Lifecycle.{IsLegal, is_valid_transition_iff}
use openclaw_observatory.Models.Registry.{Connectivity, online, FleetAssetView}
use openclaw_observatory.Storage.Events.{EventStore, latest_event, query_events}
use openclaw_observatory.Storage.Events.Latest.{latest_event_found}
use openclaw_observatory.Exec.{ok}
use openclaw_observatory.Registry.{mapped, assemble, build_view}
use openclaw_observatory.Health.{compute_health, is_failing, is_stale, number_at, get_number}
use openclaw_observatory.Health.Verdict.{
  classify, any_critical, any_warning, rank, WorseThan, compute_health_classifies,
  compute_health_mono,
}
use openclaw_observatory.Offline.{
  Detector, Counts, no_counts, evaluate, judgment, sweep, transition_event,
}
use openclaw_observatory.Offline.Judgment.{view_agrees_with_detector}
use openclaw_observatory.Offline.Sweep.{total, owed_all, sweep_reports_changes}
use openclaw_observatory.Examples.{fresh_world, host, sample_settings}

abbrev iso : ℕ → String
iso n = "time"

abbrev heartbeat : Event
heartbeat = record {
  id = 1;
  collector_id = "RPSG01";
  timestamp = 900;
  event_type = "heartbeat";
  payload = end;
  schema_version = 1;
  received_at = 1000;
}

abbrev heard : EventStore
heard = record { events = heartbeat ∷ []; started = true; fail = false }

-- the host was offline when it was last looked at, and has a heartbeat since
abbrev watching : Detector
watching = record {
  world = record fresh_world { events = heard };
  known = ("RPSG01", Connectivity.offline) ∷ [];
}

sweep_reports_changes_example :
    let (r, d) = sweep iso sample_settings (λ id. 7) 901 (host ∷ []) no_counts watching in
    (counts : Counts) × (r ≡ ok counts)
    × (total counts ≡ 0 + 1)
    × (d.world.events.events
        ≡ heartbeat ∷ []
          ++ owed_all iso sample_settings
              (λ id. 7)
              901
              heard
              (("RPSG01", Connectivity.offline) ∷ [])
              (host ∷ []))
sweep_reports_changes_example =
    sweep_reports_changes iso sample_settings (λ id. 7) 901 (host ∷ []) no_counts watching refl

-- One event is owed there: the host came back.
came_back :
    length (
      owed_all iso sample_settings
        (λ id. 7)
        901
        heard
        (("RPSG01", Connectivity.offline) ∷ [])
        (host ∷ []))
    ≡ 1
unfolding judgment transition_event lookup sort_desc openclaw_observatory.Prelude.Sort.newest
    openclaw_observatory.Storage.Events.selected
came_back = refl

latest_event_found_example :
    (e : Event) × (latest_event "RPSG01" "heartbeat" heard ≡ ok (some e))
    × In e (heartbeat ∷ [])
    × (e.collector_id ≡ "RPSG01")
    × (e.event_type ≡ "heartbeat")
    × (1000 ≤ e.received_at)
latest_event_found_example =
    latest_event_found "RPSG01" "heartbeat" heard heartbeat refl (here refl) refl refl

abbrev silent_view : FleetAssetView
silent_view = assemble sample_settings 5000 host none none

silent_built : build_view sample_settings 5000 host fresh_world ≡ ok silent_view
unfolding build_view latest_event query_events sort_desc
silent_built = refl

view_agrees_with_detector_example :
    evaluate sample_settings "RPSG01" 5000 fresh_world
    ≡ ok (silent_view.connectivity, mapped (λ h. h.timestamp) silent_view.last_heartbeat)
view_agrees_with_detector_example =
    view_agrees_with_detector sample_settings 5000 host fresh_world silent_view silent_built

is_valid_transition_iff_example :
    (is_valid_transition (some "Created") "Running" true ≡ true)
    ↔ IsLegal true "Running" (some "Created")
is_valid_transition_iff_example = is_valid_transition_iff (some "Created") "Running" true

abbrev warm : Fields
warm = field "cpu" (Value.obj (field "temperature_c" (Value.int (pos 60)) end)) end

abbrev hot : Fields
hot = field "cpu" (Value.obj (field "temperature_c" (Value.int (pos 90)) end)) end

compute_health_classifies_example :
    compute_health sample_settings online none (some hot) none
    ≡ classify (any_critical sample_settings hot) (
        (is_failing sample_settings none || is_stale sample_settings none)
        || any_warning sample_settings hot)
compute_health_classifies_example = compute_health_classifies sample_settings none hot none

hotter : WorseThan warm hot
unfolding get_number number_at get as_float
hotter = record { cpu = omega arith; disk = tt; ram = tt }

compute_health_mono_example :
    rank (compute_health sample_settings online none (some warm) none)
    ≤ rank (compute_health sample_settings online none (some hot) none)
compute_health_mono_example = compute_health_mono sample_settings none warm hot none hotter
