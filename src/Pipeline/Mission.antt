-- ===== src/Pipeline/Mission.antt =====
-- `MissionUpdateHandler` of backend/app/services/pipeline.py.
use openclaw_observatory.Prelude.{ℕ, String, not, Option, none, some, ◌==◌, leb, if◌then◌else◌}
use openclaw_observatory.Models.Event.{Event, EventIn}
use openclaw_observatory.Models.Mission.{
  MissionRecord, MissionUpdate, is_valid_transition, state_index,
}
use openclaw_observatory.Storage.Keyed.{get_mission, upsert_mission}
use openclaw_observatory.Schemas.{Schemas}
use openclaw_observatory.Exec.{pipeline_rejection, value_error, pure, raise, raise_if, ◌>>=◌, ◌>>◌}
use openclaw_observatory.World.{App, reads, on_missions, audit_log}

-- `MISSION_STATES.index("Running")`
abbrev pub running_index : ℕ
running_index = 3

-- `current.state if current else None`, and so for any other field
abbrev pub known {ℓ} : {A : Type ℓ} → Option MissionRecord → (MissionRecord → A) → Option A
known none field = none
known (some current) field = some (field current)

abbrev pub known_optional {ℓ} :
    {A : Type ℓ} → Option MissionRecord → (MissionRecord → Option A) → Option A
known_optional none field = none
known_optional (some current) field = field current

-- `a or b` on `str | None`: the empty text is falsy
abbrev pub or_else : Option String → Option String → Option String
or_else none b = b
or_else (some a) b = if a == "" then b else some a

abbrev pub text_or : String → String → String
text_or a b = if a == "" then b else a

abbrev pub value_or {ℓ} : {A : Type ℓ} → Option A → A → A
value_or none d = d
value_or (some a) d = a

-- `started_at` and `completed_at` of the new record
unfoldable pub next_started : Option MissionRecord → ℕ → ℕ → Option ℕ
next_started current index timestamp = elim (known_optional current (λ r. r.started_at)) [
  | none ↦ if leb running_index index then some timestamp else none
  | some t ↦ some t
]

unfoldable pub next_completed : Option MissionRecord → String → ℕ → Option ℕ
next_completed current state timestamp = elim (known_optional current (λ r. r.completed_at)) [
  | none ↦ if state == "Completed" then some timestamp else none
  | some t ↦ some t
]

-- The record that `apply` writes; `index` is the position of the new state.
unfoldable pub projected : MissionUpdate → Option MissionRecord → ℕ → Event → MissionRecord
projected update current index event = record {
  mission_id = update.mission_id;
  title = text_or update.title (value_or (known current (λ r. r.title)) update.mission_id);
  assigned_agent = or_else update.assigned_agent (known_optional current (λ r. r.assigned_agent));
  state = update.state;
  created_at = value_or (known current (λ r. r.created_at)) event.timestamp;
  started_at = next_started current index event.timestamp;
  completed_at = next_completed current update.state event.timestamp;
  pr_ref = or_else update.pr_ref (known_optional current (λ r. r.pr_ref));
  commit_sha = or_else update.commit_sha (known_optional current (λ r. r.commit_sha));
  updated_at = event.received_at;
}

-- the end of `apply`; `MISSION_STATES.index(update.state)` raises where there is no such state
unfoldable pub write_projection :
    MissionUpdate → Option MissionRecord → Event → Option ℕ → App (Unit {0})
write_projection update current event none = raise value_error
write_projection update current event (some index) =
    on_missions (upsert_mission (projected update current index event))

module _ (schemas : Schemas) where
  unfoldable pub mission_validate : EventIn → App (Unit {0})
  mission_validate inbound = elim (schemas.mission_update inbound.payload) [
    | none ↦ raise (pipeline_rejection 422 "validation_error")
    | some update ↦ do
      current ← reads (λ w. get_mission update.mission_id w.missions)
      let from_state = known current (λ r. r.state)
      raise_if (not (is_valid_transition from_state update.state update.backfill))
          (pipeline_rejection 409 "invalid_mission_transition")
      if update.backfill
          then audit_log (record {
            mission_id = update.mission_id;
            from_state = from_state;
            to_state = update.state;
            collector_id = inbound.collector_id;
          })
          else pure tt
  ]

  unfoldable pub mission_apply : Event → App (Unit {0})
  unfolding write_projection
  mission_apply event = elim (schemas.mission_update event.payload) [
    | none ↦ raise value_error
    | some update ↦ do
      current ← reads (λ w. get_mission update.mission_id w.missions)
      write_projection update current event (state_index update.state)
  ]
