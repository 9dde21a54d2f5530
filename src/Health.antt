-- ===== src/Health.antt =====
-- backend/app/services/health.py: the health score of one asset.
pub mod Verdict
use openclaw_observatory.Prelude.{
  ℕ, ◌*◌, String, Bool, true, false, Option, none, some, List, [], ◌∷◌, ◌||◌, leb, if◌then◌else◌,
}
use openclaw_observatory.Prelude.Int.{ℤ, pos, scale, ltb_ℤ, leb_ℤ}
use openclaw_observatory.Json.{Value, Fields, obj, get, as_float, is_empty}
use openclaw_observatory.Config.{Settings}
use openclaw_observatory.Models.Registry.{Connectivity, HealthStatus}

-- `_get_number`: down the path, then a number that is no `bool`
unfoldable pub number_at : List String → Value → Option ℤ
unfolding get as_float
number_at [] node = as_float node
number_at (key ∷ path) (obj fields) = elim (get key fields) [
  | none ↦ none
  | some node ↦ number_at path node
]
number_at (key ∷ path) _ = none

unfoldable pub get_number : Fields → List String → Option ℤ
unfolding number_at
get_number payload path = number_at path (obj payload)

-- One signal: at or above the critical threshold the score is decided, at or above the warning one
-- the flag is raised, and a signal that is missing is skipped.
unfoldable pub judge : Option ℤ → ℤ → ℤ → Bool → (Bool → HealthStatus) → HealthStatus
judge none critical warn warning next = next warning
judge (some value) critical warn warning next =
    if leb_ℤ critical value
    then HealthStatus.critical
    else next (if leb_ℤ warn value then true else warning)

-- heartbeat age above `offline_timeout * health_heartbeat_warning_ratio`, the ratio in millionths
unfoldable pub is_stale : Settings → Option ℤ → Bool
is_stale settings none = false
is_stale settings (some age) =
    ltb_ℤ (pos (settings.offline_timeout * settings.health_heartbeat_warning_ratio))
      (scale 1000000 age)

unfoldable pub is_failing : Settings → Option ℤ → Bool
is_failing settings none = false
is_failing settings (some failures) =
    leb_ℤ (pos settings.health_collector_failures_warning) failures

abbrev pub cpu_temp : Fields → Option ℤ
cpu_temp p = get_number p ("cpu" ∷ "temperature_c" ∷ [])

abbrev pub disk_used : Fields → Option ℤ
disk_used p = get_number p ("disk" ∷ "used_percent" ∷ [])

abbrev pub ram_used : Fields → Option ℤ
ram_used p = get_number p ("memory" ∷ "used_percent" ∷ [])

abbrev pub final : Bool → HealthStatus
final warning = if warning then HealthStatus.warning else HealthStatus.healthy

unfoldable pub judge_system : Settings → Fields → Bool → HealthStatus
judge_system s p warning =
    judge (cpu_temp p) s.health_cpu_temp_critical_c s.health_cpu_temp_warning_c warning
      λ warned_cpu.
        judge (disk_used p) s.health_disk_critical_percent s.health_disk_warning_percent warned_cpu
          λ warned_disk.
            judge (ram_used p) s.health_ram_critical_percent s.health_ram_warning_percent
              warned_disk final

-- `if system_payload:` skips a payload that is missing or empty.
unfoldable pub judge_payload : Settings → Option Fields → Bool → HealthStatus
unfolding judge_system
judge_payload s none warning = final warning
judge_payload s (some p) warning = if is_empty p then final warning else judge_system s p warning

unfoldable pub compute_health :
    Settings → Connectivity → Option ℤ → Option Fields → Option ℤ → HealthStatus
unfolding judge_payload
compute_health settings Connectivity.offline age payload failures = HealthStatus.offline
compute_health settings Connectivity.unknown age payload failures = HealthStatus.unknown
compute_health settings Connectivity.online age payload failures =
    judge_payload settings payload (is_failing settings failures || is_stale settings age)
