-- ===== src/Examples/Hosts.antt =====
-- What the backend and the collectors are configured with, and what a host reports.
use openclaw_observatory.Prelude.{
  ℕ, ◌≡◌, ◌≢◌, ◌≤◌, refl, ◌↔◌, String, Option, none, some, List, [], ◌∷◌, here, there, arith,
}
use openclaw_observatory.Prelude.Int.{pos}
use openclaw_observatory.Json.{Value}
use openclaw_observatory.Prelude.Dict.{Dict, lookup}
use openclaw_observatory.Prelude.Text.{strip, lstrip_by, rstrip_by, after_prefix, occurs_in}
use openclaw_observatory.Config.Startup.{load_settings}
use openclaw_observatory.Config.Startup.Safe.{IsSafe, load_settings-IsSafe}
use openclaw_observatory.Collectors.Configuration.{
  Float, CollectorConfig, from_env, checked_key, fleet_from, url_from, timing_from, float_env,
  api_key_from, ◌>>=◌,
}
use openclaw_observatory.Collectors.Configuration.Valid.{IsValid, from_env-IsValid}
use openclaw_observatory.Collectors.Metrics.{cpu_percent_from_samples}
use openclaw_observatory.Collectors.Metrics.Bounds.{cpu_percent_bounded}
use openclaw_observatory.Collectors.Inventory.Storage.{
  Entry, Name, physical_of, prefix_of, name_entry, name_device, assign_from, assign_logical_names,
}
use openclaw_observatory.Collectors.Inventory.Storage.Names.{assign_logical_names_distinct}
use openclaw_observatory.Monitor.Sections.{render_missions_section, render_fleet_section}
use openclaw_observatory.Monitor.Events.{render_recent_events_section}
use openclaw_observatory.Monitor.Tables.{tables_inert}
use openclaw_observatory.Prelude.Text.Html.{openings}
use openclaw_observatory.Config.{Settings}
use openclaw_observatory.Examples.{sample_settings}
use openclaw_observatory.Examples.Requests.{m1}

abbrev env : Dict String
env =
    ("OBSERVATORY_API_KEY", " secret ")
    ∷ ("FLEET_ID", "RPSG01")
    ∷ ("OBSERVATORY_URL", "https://hub/")
    ∷ []

abbrev no_float : String → Option Float
no_float s = none

abbrev no_file : String → Option String
no_file s = none

abbrev configured : CollectorConfig
configured = record {
  observatory_url = "https://hub";
  api_key = "secret";
  fleet_id = "RPSG01";
  collector_name = "host_pi";
  timing = record {
    heartbeat_interval = Float.finite (pos 30000000);
    telemetry_interval = Float.finite (pos 30000000);
    mission_poll_interval = Float.finite (pos 60000000);
    inventory_interval = Float.finite (pos 3600000000);
    request_timeout = Float.finite (pos 10000000);
    max_retries = 3;
  };
  claude_bin = none;
  openclaw_bin = none;
}

from_env-IsValid_example : IsValid configured
unfolding from_env checked_key fleet_from url_from timing_from float_env api_key_from ◌>>=◌ lookup
    strip lstrip_by rstrip_by after_prefix occurs_in
from_env-IsValid_example = from_env-IsValid no_float no_file env "host_pi" configured refl

cpu_percent_bounded_example :
    (p : ℕ) × (cpu_percent_from_samples (some (pos 700, pos 1000)) (some (pos 760, pos 1100))
      ≡ some (pos p))
    × (p ≤ 10000)
cpu_percent_bounded_example =
    cpu_percent_bounded 700 1000 760 1100 (omega arith) (omega arith) (omega arith)

abbrev partition : String → String → Entry
partition device mount = record {
  device = device;
  physical_device = "/dev/sda";
  type = "SSD";
  transport = some "USB";
  capacity_bytes = none;
  mount = mount;
  brand = none;
  filesystem = "ext4";
  usage = none;
}

abbrev entries : List Entry
entries = partition "/dev/sda1" "/" ∷ partition "/dev/sda2" "/data" ∷ []

abbrev first_entry : Option Name × Entry
first_entry = (some ("SSD", 1), partition "/dev/sda1" "/")

abbrev second_entry : Option Name × Entry
second_entry = (some ("SSD", 1), partition "/dev/sda2" "/data")

assign_logical_names_distinct_example :
    (first_entry.0 ≢ none)
    × ((first_entry.0 ≡ second_entry.0) ↔ (physical_of first_entry.1 ≡ physical_of second_entry.1))
unfolding assign_logical_names assign_from name_entry name_device prefix_of lookup
assign_logical_names_distinct_example =
    assign_logical_names_distinct entries first_entry second_entry (here refl) (there (here refl))

abbrev plain : Value → String
plain v = "<b>"

abbrev no_json : String → Option Value
no_json s = none

abbrev settings : Settings
settings = record sample_settings { api_keys = "RPSG01:key-a,OBLN01:key-b"; log_level = "info" }

load_settings-IsSafe_example :
    (load_settings no_json (some settings) ≡ some settings) ↔ IsSafe no_json settings
load_settings-IsSafe_example = load_settings-IsSafe no_json settings

tables_inert_example :
    (openings (render_missions_section (m1 ∷ [])) ≡ 36)
    × (openings (render_fleet_section 2000 []) ≡ 26)
    × (openings (render_recent_events_section plain 2000 []) ≡ 22)
tables_inert_example = tables_inert plain 2000 (m1 ∷ []) [] []
