-- ===== src/Models/Mission.antt =====
-- backend/app/models/mission.py: the lifecycle graph, the update payload, the record and its view.
pub mod Lifecycle
use openclaw_observatory.Prelude.{
  ℕ, zero, suc, ◌+◌, String, Bool, false, Option, none, some, List, [], ◌∷◌, ◌==◌, ◌||◌, leb,
  nat_eq, if◌then◌else◌,
}
use openclaw_observatory.Prelude.Int.{ℤ, sub_ℕ}

abbrev pub mission_states : List String
mission_states = "Created" ∷ "Queued" ∷ "Assigned" ∷ "Running" ∷ "Review" ∷ "Completed" ∷ []

-- `MISSION_STATES.index(state)`, and the lookup in `_STATE_INDEX`
unfoldable pub index_from : ℕ → String → List String → Option ℕ
index_from i s [] = none
index_from i s (x ∷ xs) = if x == s then some i else index_from (i + 1) s xs

unfoldable pub state_index : String → Option ℕ
unfolding index_from
state_index s = index_from 0 s mission_states

-- `delta >= 0` and `delta in (0, 1)` for `delta = new - current`
abbrev pub delta_allowed : Bool → ℕ → ℕ → Bool
delta_allowed backfill current new =
    if backfill then leb current new else nat_eq new current || nat_eq new (current + 1)

unfoldable pub transition_allowed : Option String → Bool → ℕ → Bool
transition_allowed none backfill new = backfill || nat_eq new 0
transition_allowed (some current) backfill new = elim (state_index current) [
  | none ↦ false
  | some i ↦ delta_allowed backfill i new
]

unfoldable pub is_valid_transition : Option String → String → Bool → Bool
unfolding transition_allowed
is_valid_transition current new backfill = elim (state_index new) [
  | none ↦ false
  | some j ↦ transition_allowed current backfill j
]

pub record MissionUpdate : Type 0 where
  pub mission_id : String
  pub title : String
  pub state : String
  pub assigned_agent : Option String
  pub pr_ref : Option String
  pub commit_sha : Option String
  pub note : Option String
  pub backfill : Bool

pub record MissionRecord : Type 0 where
  pub mission_id : String
  pub title : String
  pub assigned_agent : Option String
  pub state : String
  pub created_at : ℕ
  pub started_at : Option ℕ
  pub completed_at : Option ℕ
  pub pr_ref : Option String
  pub commit_sha : Option String
  pub updated_at : ℕ

-- microseconds from Running to Completed, where both are known
unfoldable pub duration_seconds : MissionRecord → Option ℤ
duration_seconds r = elim r.started_at [
  | none ↦ none
  | some s ↦ elim r.completed_at [ none ↦ none | some c ↦ some (sub_ℕ c s) ]
]

pub record MissionView : Type 0 where
  pub mission_id : String
  pub title : String
  pub assigned_agent : Option String
  pub state : String
  pub created_at : ℕ
  pub started_at : Option ℕ
  pub completed_at : Option ℕ
  pub duration_seconds : Option ℤ
  pub pr_ref : Option String
  pub commit_sha : Option String
  pub updated_at : ℕ

unfoldable pub from_record : MissionRecord → MissionView
from_record r = record {
  mission_id = r.mission_id;
  title = r.title;
  assigned_agent = r.assigned_agent;
  state = r.state;
  created_at = r.created_at;
  started_at = r.started_at;
  completed_at = r.completed_at;
  duration_seconds = duration_seconds r;
  pr_ref = r.pr_ref;
  commit_sha = r.commit_sha;
  updated_at = r.updated_at;
}
