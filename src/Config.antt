-- ===== src/Config.antt =====
-- backend/app/config.py: the settings. Seconds and intervals are whole microseconds; ratios and
-- percentages are whole millionths; temperatures are signed millionths of a degree.
pub mod Keys
pub mod Bindings
pub mod Startup
use openclaw_observatory.Prelude.{ℕ, String, Bool}
use openclaw_observatory.Prelude.Int.{ℤ}
use openclaw_observatory.Models.Registry.{Environment}

pub record Settings : Type 0 where
  pub clickhouse_host : String
  pub clickhouse_port : ℕ
  pub clickhouse_database : String
  pub clickhouse_username : String
  pub clickhouse_password : String
  pub clickhouse_connect_timeout : ℕ
  pub api_keys : String
  pub log_level : String
  pub app_version : String
  pub app_name : String
  pub deployment_environment : Environment
  pub display_tz : String
  pub max_request_bytes : ℕ
  pub fleet_id : String
  pub collector_name : String
  pub heartbeat_interval : ℕ
  pub offline_timeout : ℕ
  pub offline_check_interval : ℕ
  pub background_tasks_enabled : Bool
  pub frontend_dist_dir : String
  pub health_cpu_temp_warning_c : ℤ
  pub health_cpu_temp_critical_c : ℤ
  pub health_disk_warning_percent : ℤ
  pub health_disk_critical_percent : ℤ
  pub health_ram_warning_percent : ℤ
  pub health_ram_critical_percent : ℤ
  pub health_heartbeat_warning_ratio : ℕ
  pub health_collector_failures_warning : ℕ
