-- ===== src/Collectors/Agent/Admission.antt =====
-- The first update of a mission that the agent collector forwards, at the backend.
use openclaw_observatory.Prelude.{◌≡◌, ◌⊎◌, String, Bool, Option, none, some}
use openclaw_observatory.Json.{Value, Fields, get}
use openclaw_observatory.Models.Mission.{MissionUpdate}
use openclaw_observatory.Schemas.{Schemas}
use openclaw_observatory.World.{World}
use openclaw_observatory.Collectors.Agent.{Submitted, text_at, update_event}

-- What `MissionUpdate.model_validate` makes of a payload: it keeps a text for the state and a JSON
-- boolean for `backfill` as they are.
pub record ReadsAsIs (schemas : Schemas) : Type 0 where
  pub state :
      (fs : Fields) (u : MissionUpdate) (state : String)
      → schemas.mission_update fs ≡ some u
      → text_at "state" fs ≡ some state
      → u.state ≡ state
  pub flag :
      (fs : Fields) (u : MissionUpdate) (b : Bool)
      → schemas.mission_update fs ≡ some u
      → get "backfill" fs ≡ some (Value.bool b)
      → u.backfill ≡ b

-- The entry says nothing of a backfill, or a JSON boolean.
abbrev pub IsFlag : Option Value → Type 0
IsFlag o = (o ≡ none) ⊎ ((b : Bool) × (o ≡ some (Value.bool b)))

module _ (s : Submitted) (fs : Fields) (id state : String) where
  abbrev payload : Fields
  payload = (update_event s id state fs).payload
