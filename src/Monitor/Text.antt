-- ===== src/Monitor/Text.antt =====
-- The rendering helpers of backend/app/services/monitor.py. `str` is Python's `str` of a value, and
-- `fixed n d` is the quotient of `n` by `d` with one decimal.
use Prim.Native.String.{◌++◌}
use openclaw_observatory.Prelude.{
  ℕ, suc, ◌+◌, ◌-◌, ◌*◌, ◌/◌, ◌%◌, String, true, false, ◌==◌, nat_eq, Option, none, some, List, [],
  ◌∷◌, if◌then◌else◌,
}
use openclaw_observatory.Prelude.Int.{ℤ, pos, negsuc, sub_ℕ, ltb_ℤ}
use openclaw_observatory.Prelude.Text.{begins_with, after_prefix}
use openclaw_observatory.Prelude.Text.Numbers.{show_nat}
use openclaw_observatory.Prelude.Text.Html.{escape, concat}
use openclaw_observatory.Json.{Value, as_float}
use openclaw_observatory.Models.Registry.{HealthStatus, Connectivity}

abbrev pub dash : String
dash = "—"

-- `_dash` of a text that may be missing
unfoldable pub dash_text : Option String → String
unfolding escape
dash_text none = dash
dash_text (some s) = if s == "" then dash else escape s

unfoldable pub version_label : String → String
unfolding after_prefix
version_label version = if begins_with version "v" then version else "v" ++ version

abbrev pub seconds_parts : ℕ → List String
seconds_parts s = show_nat s ∷ "s" ∷ []

abbrev pub minutes_parts : ℕ → ℕ → List String
minutes_parts m s = show_nat m ∷ "m " ∷ seconds_parts s

abbrev pub hours_parts : ℕ → ℕ → List String
hours_parts h m = show_nat h ∷ "h " ∷ show_nat m ∷ "m" ∷ []

abbrev pub days_parts : String → ℕ → ℕ → ℕ → List String
days_parts sign d h m = sign ∷ show_nat d ∷ "d " ∷ hours_parts h m

-- days with their sign, and the seconds of the last one
unfoldable pub clock_text : String → ℕ → ℕ → String
unfolding concat show_nat
clock_text sign days rem =
    let hours = rem / 3600 in
    let minutes = rem % 3600 / 60 in
    if nat_eq days 0
    then (if nat_eq hours 0
        then (if nat_eq minutes 0
            then concat (seconds_parts (rem % 60))
            else concat (minutes_parts minutes (rem % 60)))
        else concat (hours_parts hours minutes))
    else concat (days_parts sign days hours minutes)

-- `_fmt_duration` of a whole number of seconds; `divmod` rounds downwards
unfoldable pub fmt_seconds : ℤ → String
unfolding clock_text
fmt_seconds (pos n) = clock_text "" (n / 86400) (n % 86400)
fmt_seconds (negsuc n) = clock_text "-" (n / 86400 + 1) (86399 - n % 86400)

-- `int` of a number of millionths, towards zero
abbrev pub truncated : ℤ → ℤ
truncated (pos n) = pos (n / 1000000)
truncated (negsuc n) = sub_ℕ 0 (suc n / 1000000)

-- of microseconds
unfoldable pub fmt_duration : Option ℤ → String
unfolding fmt_seconds
fmt_duration none = dash
fmt_duration (some x) = fmt_seconds (truncated x)

-- `_fmt_age`: a time to come counts as now
unfoldable pub fmt_age : Option ℕ → ℕ → String
unfolding fmt_duration
fmt_age none now = dash
fmt_age (some timestamp) now = fmt_duration (some (pos (now - timestamp))) ++ " ago"

module _ (fixed : ℤ → ℕ → String) where
  unfoldable pub fmt_percent : Value → String
  unfolding as_float
  fmt_percent v = elim (as_float v) [ none ↦ dash | some x ↦ fixed x 1000000 ++ "%" ]

  -- `divisor` is 1024 for each unit that was passed over
  unfoldable pub sized_in : ℤ → ℕ → List String → String
  sized_in x divisor [] = fixed x divisor ++ " TiB"
  sized_in x divisor (unit ∷ units) =
      let larger = sized_in x (divisor * 1024) units in
      if ltb_ℤ x (pos (1024 * divisor)) then fixed x divisor ++ " " ++ unit else larger

  unfoldable pub fmt_bytes : Value → String
  unfolding as_float sized_in
  fmt_bytes v = elim (as_float v) [
    | none ↦ dash
    | some x ↦ sized_in x 1000000 ("B" ∷ "KiB" ∷ "MiB" ∷ "GiB" ∷ [])
  ]

  unfoldable pub fmt_used : Value → Value → String
  unfolding fmt_bytes fmt_percent concat
  fmt_used Value.null Value.null = dash
  fmt_used bytes percent = concat (fmt_bytes bytes ∷ " (" ∷ fmt_percent percent ∷ ")" ∷ [])

unfoldable pub badge : String → String → String
unfolding concat
badge css label = concat ("<span class=\"badge " ∷ css ∷ "\">" ∷ label ∷ "</span>" ∷ [])

abbrev pub health_value : HealthStatus → String
health_value HealthStatus.healthy = "Healthy"
health_value HealthStatus.warning = "Warning"
health_value HealthStatus.critical = "Critical"
health_value HealthStatus.offline = "Offline"
health_value HealthStatus.unknown = "Unknown"

abbrev pub status_class : HealthStatus → String
status_class HealthStatus.healthy = "ok"
status_class HealthStatus.warning = "warn"
status_class HealthStatus.critical = "crit"
status_class HealthStatus.offline = "crit"
status_class HealthStatus.unknown = "unknown"

unfoldable pub health_badge : HealthStatus → String
unfolding badge escape
health_badge health = badge (status_class health) (escape (health_value health))

unfoldable pub connectivity_badge : Connectivity → String
unfolding badge escape
connectivity_badge Connectivity.online = badge "ok" (escape "online")
connectivity_badge Connectivity.offline = badge "crit" (escape "offline")
connectivity_badge Connectivity.unknown = badge "unknown" (escape "unknown")

unfoldable pub bool_badge : Value → String → String → String
unfolding badge escape
bool_badge (Value.bool true) true_label false_label = badge "ok" (escape true_label)
bool_badge (Value.bool false) true_label false_label = badge "crit" (escape false_label)
bool_badge _ true_label false_label = "<span class=\"badge unknown\">unknown</span>"
