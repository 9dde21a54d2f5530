-- ===== src/Health/Verdict.antt =====
-- The health score as a classification, and its monotonicity.
use openclaw_observatory.Prelude.{
  ℕ, ◌≤◌, ◌≡◌, Bool, true, false, ◌||◌, Option, none, some, arith, if◌then◌else◌,
}
use openclaw_observatory.Prelude.Int.{ℤ, ◌≤ℤ◌, leb_ℤ}
use openclaw_observatory.Json.{Fields, end, field, get}
use openclaw_observatory.Config.{Settings}
use openclaw_observatory.Models.Registry.{HealthStatus, online}
use openclaw_observatory.Health.{
  judge, judge_system, compute_health, is_stale, is_failing, cpu_temp, disk_used, ram_used,
  get_number,
}

-- A signal that is there and stands at a threshold or above it.
abbrev pub reaches : ℤ → Option ℤ → Bool
reaches threshold none = false
reaches threshold (some value) = leb_ℤ threshold value

abbrev pub any_critical : Settings → Fields → Bool
any_critical s p =
    reaches s.health_cpu_temp_critical_c (cpu_temp p)
    || (reaches s.health_disk_critical_percent (disk_used p)
        || reaches s.health_ram_critical_percent (ram_used p))

abbrev pub any_warning : Settings → Fields → Bool
any_warning s p =
    reaches s.health_cpu_temp_warning_c (cpu_temp p)
    || (reaches s.health_disk_warning_percent (disk_used p)
        || reaches s.health_ram_warning_percent (ram_used p))

abbrev pub classify : Bool → Bool → HealthStatus
classify critical warning =
    if critical
    then HealthStatus.critical
    else (if warning then HealthStatus.warning else HealthStatus.healthy)

judge-classify :
    (s : Settings) (p : Fields) (w : Bool)
    → judge_system s p w ≡ classify (any_critical s p) (w || any_warning s p)
unfolding judge_system judge
judge-classify s p w = ground arith

-- The order in which the signals are read does not matter: an online asset is Critical exactly when
-- one of its signals reaches its critical threshold, else Warning exactly when the heartbeat is
-- stale, the collector reports failures or a signal reaches its warning threshold, else Healthy.
pub compute_health_classifies :
    (s : Settings) (age : Option ℤ) (p : Fields) (failures : Option ℤ)
    → compute_health s online age (some p) failures
      ≡ classify (any_critical s p) ((is_failing s failures || is_stale s age) || any_warning s p)
unfolding compute_health get_number get judge_system judge
compute_health_classifies s age end failures = ground arith
compute_health_classifies s age (field k v rest) failures =
    judge-classify s (field k v rest) (is_failing s failures || is_stale s age)

abbrev pub rank : HealthStatus → ℕ
rank HealthStatus.healthy = 0
rank HealthStatus.warning = 1
rank _ = 2

-- The second signal is missing exactly where the first is, and is no lower.
abbrev pub Worse : Option ℤ → Option ℤ → Type 0
Worse none none = Unit
Worse (some v) (some v') = v ≤ℤ v'
Worse _ _ = ⊥

pub record WorseThan (p p' : Fields) : Type 0 where
  pub cpu : Worse (cpu_temp p) (cpu_temp p')
  pub disk : Worse (disk_used p) (disk_used p')
  pub ram : Worse (ram_used p) (ram_used p')

reaches_mono : (t : ℤ) (v v' : Option ℤ) → Worse v v' → reaches t v ≡ true → reaches t v' ≡ true
reaches_mono t none none h r = r
reaches_mono t none (some v') h r = absurd h
reaches_mono t (some v) none h r = absurd h
reaches_mono t (some v) (some v') h r = ground arith

classify_mono :
    (c w c' w' : Bool)
    → (c ≡ true → c' ≡ true)
    → (w ≡ true → w' ≡ true)
    → rank (classify c w) ≤ rank (classify c' w')
classify_mono c w c' w' f g = ground arith

-- Hotter, fuller or more loaded never scores better: raising signals of an online asset, all else
-- equal, never lowers the score.
pub compute_health_mono :
    (s : Settings) (age : Option ℤ) (p p' : Fields) (failures : Option ℤ)
    → WorseThan p p'
    → rank (compute_health s online age (some p) failures)
      ≤ rank (compute_health s online age (some p') failures)
compute_health_mono s age p p' failures h = ground (
  arith,
  compute_health_classifies s age p failures,
  compute_health_classifies s age p' failures,
  reaches_mono s.health_cpu_temp_critical_c (cpu_temp p) (cpu_temp p') h.cpu,
  reaches_mono s.health_disk_critical_percent (disk_used p) (disk_used p') h.disk,
  reaches_mono s.health_ram_critical_percent (ram_used p) (ram_used p') h.ram,
  reaches_mono s.health_cpu_temp_warning_c (cpu_temp p) (cpu_temp p') h.cpu,
  reaches_mono s.health_disk_warning_percent (disk_used p) (disk_used p') h.disk,
  reaches_mono s.health_ram_warning_percent (ram_used p) (ram_used p') h.ram,
)
