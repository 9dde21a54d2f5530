-- ===== src/Auth.antt =====
-- backend/app/auth.py: API keys bound to fleet identities. `hmac.compare_digest` is equality.
pub mod Binding
pub mod Configured
use openclaw_observatory.Prelude.{
  String, Bool, true, false, Option, none, some, List, [], ◌∷◌, ◌==◌, if◌then◌else◌,
}
use openclaw_observatory.Exec.{http_exception, pure, raise}
use openclaw_observatory.World.{App}

pub record CollectorPrincipal : Type 0 where
  pub method : String
  pub subject : String

-- the loop over all keys; there is no early exit, so the last match stands
unfoldable pub match_keys : String → Option String → List (String × String) → Option String
match_keys candidate matched [] = matched
match_keys candidate matched ((collector_id, key) ∷ rest) =
    match_keys candidate (if candidate == key then some collector_id else matched) rest

abbrev pub as_principal : Option String → Option CollectorPrincipal
as_principal none = none
as_principal (some matched) = some (record { method = "api_key"; subject = matched })

-- `ApiKeyAuthenticator.authenticate`
unfoldable pub authenticate : List (String × String) → Option String → Option CollectorPrincipal
unfolding match_keys
authenticate bindings none = none
authenticate [] (some credential) = none
authenticate bindings (some credential) =
    if credential == "" then none else as_principal (match_keys credential none bindings)

unfoldable pub require_collector : List (String × String) → Option String → App CollectorPrincipal
require_collector bindings api_key = elim (authenticate bindings api_key) [
  | none ↦ raise (http_exception 401)
  | some principal ↦ pure principal
]
