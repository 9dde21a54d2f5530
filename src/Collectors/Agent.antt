-- ===== src/Collectors/Agent.antt =====
-- `AgentTelemetry` of collectors/observatory_collectors/openclaw_agent/collector.py: forwarding the
-- transitions of the state file, which is read and parsed by probes.py. An entry that is no object
-- has been left out by `parse_state_document`.
pub mod Forwarding
pub mod Admission
pub mod Probes
use openclaw_observatory.Prelude.{
  ℕ, String, Bool, true, false, not, ◌&&◌, ◌==◌, Option, none, some, List, [], ◌∷◌, is_some,
  if◌then◌else◌,
}
use openclaw_observatory.Prelude.Dict.{Dict, lookup, insert}
use openclaw_observatory.Json.{Value, Fields, end, field, get, or_null, as_str, truthy}
use openclaw_observatory.Collectors.Runner.{EventTuple}

-- `_submitted_states`
abbrev pub Submitted : Type 0
Submitted = Dict String

-- `d[key] = value`
unfoldable pub set : String → Value → Fields → Fields
set key v end = field key v end
set key v (field k w rest) = if k == key then field k v rest else field k w (set key v rest)

abbrev pub text_at : String → Fields → Option String
text_at key fs = as_str (or_null (get key fs))

abbrev pub is_text : Option String → String → Bool
is_text none value = false
is_text (some a) value = a == value

-- first sight of a mission in flight
unfoldable pub needs_backfill : Submitted → String → String → Fields → Bool
needs_backfill submitted mission_id state update =
    not (is_some (lookup mission_id submitted))
    && (not (state == "Created") && not (truthy (or_null (get "backfill" update))))

unfoldable pub update_event : Submitted → String → String → Fields → EventTuple
unfolding needs_backfill set
update_event submitted mission_id state update = record {
  event_type = "mission_update";
  payload =
      if needs_backfill submitted mission_id state update
      then set "backfill" (Value.bool true) update
      else update;
  schema_version = 1;
}

-- One entry of `missions`: the event it gives, if any, and the states submitted so far.
unfoldable pub forward : Submitted → Fields → Option EventTuple × Submitted
unfolding update_event
forward submitted update = elim (text_at "mission_id" update) [
  | none ↦ (none, submitted)
  | some mission_id ↦ elim (text_at "state" update) [
    | none ↦ (none, submitted)
    | some state ↦ if is_text (lookup mission_id submitted) state then (none, submitted) else (
      some (update_event submitted mission_id state update),
      insert mission_id state submitted,
    )
  ]
]

abbrev pub cons_event : Option EventTuple → List EventTuple → List EventTuple
cons_event none es = es
cons_event (some e) es = e ∷ es

-- `produce_mission_updates`, over the entries of the state file
unfoldable pub produce_mission_updates : List Fields → Submitted → List EventTuple × Submitted
unfolding forward
produce_mission_updates [] submitted = ([], submitted)
produce_mission_updates (update ∷ rest) submitted =
    let (e, next) = forward submitted update in
    let (es, last) = produce_mission_updates rest next in (cons_event e es, last)
