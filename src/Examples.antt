-- ===== src/Examples.antt =====
-- Concrete inputs for the examples below: one host, one collector key, one mission.
mod Tables
mod Hosts
mod Races
mod Requests
mod Updates
mod Sweeps
mod Accounts
mod Producers
mod Limits
use openclaw_observatory.Prelude.{ℕ, String, Bool, true, false, Option, none, some, List, [], ◌∷◌}
use openclaw_observatory.Prelude.Int.{pos}
use openclaw_observatory.Json.{Value, Fields, end, field, get, or_null, as_str, truthy}
use openclaw_observatory.Config.{Settings}
use openclaw_observatory.Models.Event.{Event, EventIn, Stamp}
use openclaw_observatory.Models.Heartbeat.{HeartbeatPayload}
use openclaw_observatory.Models.Mission.{MissionUpdate, MissionRecord}
use openclaw_observatory.Models.Registry.{Environment, FleetAsset}
use openclaw_observatory.Storage.Events.{EventStore}
use openclaw_observatory.Auth.{CollectorPrincipal}
use openclaw_observatory.Schemas.{Schemas}
use openclaw_observatory.World.{World}
use openclaw_observatory.Seed.{rpsg01}
use openclaw_observatory.Ingest.Serve.{Request}

abbrev text_of : Option Value → String
text_of (some (Value.str s)) = s
text_of _ = ""

unfoldable pub sample_update : Fields → MissionUpdate
unfolding get truthy
sample_update fs = record {
  mission_id = text_of (get "mission_id" fs);
  title = "";
  assigned_agent = none;
  state = text_of (get "state" fs);
  pr_ref = none;
  commit_sha = none;
  note = none;
  backfill = truthy (or_null (get "backfill" fs));
}

-- A validation that lets every payload pass.
abbrev pub sample_schemas : Schemas
sample_schemas = record {
  heartbeat_payload = λ fs. some (record {
    collector_type = "host-pi";
    collector_version = "0.1.0";
    software_version = none;
    uptime_seconds = none;
    failures_total = 0;
  });
  mission_update = λ fs. some (sample_update fs);
}

abbrev pub sample_bindings : List (String × String)
sample_bindings = ("RPSG01", "key-a") ∷ []

abbrev pub collector : CollectorPrincipal
collector = record { method = "api_key"; subject = "RPSG01" }

abbrev pub no_events : EventStore
no_events = record { events = []; started = true; fail = false }

abbrev pub host : FleetAsset
host = rpsg01 0

-- The host is registered and nothing else is stored.
abbrev pub fresh_world : World
fresh_world = record {
  events = no_events;
  registry = record { records = ("RPSG01", host) ∷ []; fail = false };
  missions = record { records = []; fail = false };
  inventories = record { records = []; fail = false };
  metrics = [];
  audit = [];
}

abbrev pub sample_stamp : Stamp
sample_stamp = record { id = 1; received_at = 1000 }

abbrev pub heartbeat_in : EventIn
heartbeat_in = record {
  collector_id = "RPSG01";
  timestamp = 900;
  event_type = "heartbeat";
  payload = end;
  schema_version = 1;
}

abbrev pub mission_in : String → EventIn
mission_in state = record {
  collector_id = "RPSG01";
  timestamp = 900;
  event_type = "mission_update";
  payload = field "mission_id" (Value.str "M1") (field "state" (Value.str state) end);
  schema_version = 1;
}

abbrev pub request : EventIn → Request
request inbound = record {
  api_key = some "key-a";
  now = 950;
  stamp = sample_stamp;
  inbound = inbound;
}

abbrev pub sample_settings : Settings
sample_settings = record {
  clickhouse_host = "localhost";
  clickhouse_port = 8123;
  clickhouse_database = "observatory";
  clickhouse_username = "default";
  clickhouse_password = "";
  clickhouse_connect_timeout = 3000000;
  api_keys = "RPSG01:key-a";
  log_level = "INFO";
  app_version = "v1";
  app_name = "observatory";
  deployment_environment = Environment.production;
  display_tz = "";
  max_request_bytes = 1000;
  fleet_id = "OBLN01";
  collector_name = "observatory-backend";
  heartbeat_interval = 30000000;
  offline_timeout = 90000000;
  offline_check_interval = 15000000;
  background_tasks_enabled = false;
  frontend_dist_dir = "";
  health_cpu_temp_warning_c = pos 70000000;
  health_cpu_temp_critical_c = pos 80000000;
  health_disk_warning_percent = pos 80000000;
  health_disk_critical_percent = pos 95000000;
  health_ram_warning_percent = pos 85000000;
  health_ram_critical_percent = pos 95000000;
  health_heartbeat_warning_ratio = 500000;
  health_collector_failures_warning = 1;
}
