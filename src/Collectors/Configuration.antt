-- ===== src/Collectors/Configuration.antt =====
-- collectors/observatory_collectors/config.py: the configuration read from environment variables.
-- `to_float` is Python's `float` of a text and `read_file` reads a file, where they do not raise. A
-- finite number is in millionths.
pub mod Valid
use openclaw_observatory.Prelude.{
  ℕ, ◌/◌, nat_eq, String, Bool, true, false, not, ◌&&◌, ◌||◌, ◌==◌, Option, none, some,
  if◌then◌else◌,
}
use openclaw_observatory.Prelude.Int.{ℤ, pos, pos_part, leb_ℤ}
use openclaw_observatory.Prelude.Dict.{Dict, lookup}
use openclaw_observatory.Prelude.Text.{strip, rstrip_by, begins_with, occurs_in}
use openclaw_observatory.Exec.{Result, ok, err, value_error, overflow_error, config_error}

-- Python's floats: a number, an infinity or no number
pub data Float : Type 0 where
  finite : ℤ → Float
  inf minus_inf nan : Float

-- `value <= 0`
abbrev pub not_positive : Float → Bool
not_positive (finite x) = leb_ℤ x (pos 0)
not_positive minus_inf = true
not_positive inf = false
not_positive nan = false

-- `int(value)` of a number that is not below zero
abbrev pub to_int : Float → Result ℕ
to_int (finite x) = ok (pos_part x / 1000000)
to_int nan = err value_error
to_int _ = err overflow_error

-- `env.get(name, default).strip()`
abbrev pub setting : Dict String → String → String → String
setting env name default = elim (lookup name env) [ none ↦ strip default | some s ↦ strip s ]

abbrev pub or_default : String → String → String
or_default s default = if s == "" then default else s

-- `s or None`
abbrev pub optional : String → Option String
optional s = if s == "" then none else some s

-- the five intervals and the number of retries
pub record Timing : Type 0 where
  pub heartbeat_interval : Float
  pub telemetry_interval : Float
  pub mission_poll_interval : Float
  pub inventory_interval : Float
  pub request_timeout : Float
  pub max_retries : ℕ

pub record CollectorConfig : Type 0 where
  pub observatory_url : String
  pub api_key : String
  pub fleet_id : String
  pub collector_name : String
  pub timing : Timing
  pub claude_bin : Option String
  pub openclaw_bin : Option String

infixl 5 ◌>>=◌
unfoldable pub ◌>>=◌ : {A B : Type 0} → Result A → (A → Result B) → Result B
err e >>= f = err e
ok a >>= f = f a

-- `if refused: raise ConfigError`
abbrev pub unless : Bool → String → Result String
unless refused value = if refused then err config_error else ok value

abbrev pub placeholder_marker : String
placeholder_marker = "change-me"

abbrev pub is_http : String → Bool
is_http url = begins_with url "http://" || begins_with url "https://"

module _ (to_float : String → Option Float) where
  unfoldable pub float_env : Dict String → String → Float → Result Float
  unfolding lookup strip
  float_env env name default =
      let raw = setting env name "" in
      if raw == "" then ok default else elim (to_float raw) [
        | none ↦ err config_error
        | some value ↦ if not_positive value then err config_error else ok value
      ]

module _ (read_file : String → Option String) where
  -- the key itself, or else what the file holds
  unfoldable pub api_key_from : Dict String → Result String
  unfolding lookup strip
  api_key_from env =
      let api_key = setting env "OBSERVATORY_API_KEY" "" in
      let key_file = setting env "OBSERVATORY_API_KEY_FILE" "" in
      if api_key == "" && not (key_file == "")
      then elim (read_file key_file) [ none ↦ err config_error | some text ↦ ok (strip text) ]
      else ok api_key

  unfoldable pub checked_key : Dict String → Result String
  unfolding api_key_from occurs_in ◌>>=◌
  checked_key env = do
    api_key ← api_key_from env
    unless (api_key == "" || occurs_in placeholder_marker api_key) api_key

unfoldable pub fleet_from : Dict String → Result String
unfolding lookup strip
fleet_from env = let fleet_id = setting env "FLEET_ID" "" in unless (fleet_id == "") fleet_id

unfoldable pub url_from : Dict String → Result String
unfolding lookup strip rstrip_by
url_from env =
    let url = rstrip_by (nat_eq b'/') (setting env "OBSERVATORY_URL" "http://127.0.0.1:8000") in
    unless (not (is_http url)) url

module _ (to_float : String → Option Float) where
  unfoldable pub timing_from : Dict String → Result Timing
  unfolding float_env ◌>>=◌
  timing_from env = do
    heartbeat ← float_env to_float env "HEARTBEAT_INTERVAL" (finite (pos 30000000))
    telemetry ← float_env to_float env "TELEMETRY_INTERVAL" heartbeat
    mission_poll ← float_env to_float env "MISSION_POLL_INTERVAL" (finite (pos 60000000))
    inventory ← float_env to_float env "INVENTORY_INTERVAL" (finite (pos 3600000000))
    timeout ← float_env to_float env "REQUEST_TIMEOUT" (finite (pos 10000000))
    retries ← float_env to_float env "MAX_RETRIES" (finite (pos 3000000))
    max_retries ← to_int retries
    ok (record {
      heartbeat_interval = heartbeat;
      telemetry_interval = telemetry;
      mission_poll_interval = mission_poll;
      inventory_interval = inventory;
      request_timeout = timeout;
      max_retries = max_retries;
    })

module _ (to_float : String → Option Float) (read_file : String → Option String) where
  unfoldable pub from_env : Dict String → String → Result CollectorConfig
  unfolding checked_key fleet_from url_from timing_from lookup strip ◌>>=◌
  from_env env default_collector_name = do
    api_key ← checked_key read_file env
    fleet_id ← fleet_from env
    url ← url_from env
    timing ← timing_from to_float env
    ok (record {
      observatory_url = url;
      api_key = api_key;
      fleet_id = fleet_id;
      collector_name = or_default (setting env "COLLECTOR_NAME" "") default_collector_name;
      timing = timing;
      claude_bin = optional (setting env "CLAUDE_BIN" "");
      openclaw_bin = optional (setting env "OPENCLAW_BIN" "");
    })
