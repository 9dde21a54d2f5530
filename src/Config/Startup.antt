-- ===== src/Config/Startup.antt =====
-- `Settings.startup_problems` and `load_settings` of backend/app/config.py. A problem's text is left
-- out; the fields have passed their own checks, which pydantic makes.
pub mod Safe
use openclaw_observatory.Prelude.{
  String, Bool, true, false, not, ◌||◌, ◌==◌, leb, Option, none, some, List, [], ◌∷◌, ◌++◌, any,
  if◌then◌else◌,
}
use openclaw_observatory.Prelude.Text.{occurs_in}
use openclaw_observatory.Prelude.Text.Case.{upper}
use openclaw_observatory.Json.{Value}
use openclaw_observatory.Config.{Settings}
use openclaw_observatory.Config.Bindings.{Pairs, api_key_bindings}

pub data Problem : Type 0 where
  invalid_api_keys : Problem
  api_keys_required : Problem
  placeholder_key : Problem
  invalid_log_level : Problem
  offline_timeout_too_short : Problem

abbrev pub placeholder_marker : String
placeholder_marker = "change-me"

abbrev pub valid_log_levels : List String
valid_log_levels = "DEBUG" ∷ "INFO" ∷ "WARNING" ∷ "ERROR" ∷ "CRITICAL" ∷ []

abbrev pub reported_if : Bool → Problem → List Problem
reported_if b p = if b then p ∷ [] else []

abbrev pub bindings_problem : Option Pairs → List Problem
bindings_problem none = invalid_api_keys ∷ []
bindings_problem (some []) = api_keys_required ∷ []
bindings_problem (some (_ ∷ _)) = []

-- the bindings that are looked through for a placeholder
abbrev pub known_bindings : Option Pairs → Pairs
known_bindings none = []
known_bindings (some bindings) = bindings

abbrev pub has_placeholder : Pairs → Bool
has_placeholder bindings = any (λ b. occurs_in placeholder_marker b.1) bindings

abbrev pub log_level_valid : String → Bool
log_level_valid level = any (λ valid. valid == upper level) valid_log_levels

module _ (loads : String → Option Value) where
  unfoldable pub startup_problems : Settings → List Problem
  unfolding api_key_bindings occurs_in upper
  startup_problems s =
      let bindings = api_key_bindings loads s.api_keys in
      bindings_problem bindings
      ++ reported_if (has_placeholder (known_bindings bindings)) placeholder_key
      ++ reported_if (not (log_level_valid s.log_level)) invalid_log_level
      ++ reported_if (leb s.offline_timeout s.heartbeat_interval) offline_timeout_too_short

  -- `none` is the `ConfigurationError`; `settings` is what pydantic read from the environment, if it
  -- was valid.
  unfoldable pub load_settings : Option Settings → Option Settings
  unfolding startup_problems
  load_settings none = none
  load_settings (some settings) = elim (startup_problems settings) [
    | [] ↦ some settings
    | _ ∷ _ ↦ none
  ]
