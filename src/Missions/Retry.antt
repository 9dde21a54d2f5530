-- ===== src/Missions/Retry.antt =====
-- An update that is delivered again, and privileged backfills.
use openclaw_observatory.Prelude.{ℕ, ◌≡◌, ◌∙◌, ap, refl, String, false, Option, none, some, arith}
use openclaw_observatory.Prelude.Dict.{lookup, insert, lookup-insert_self}
use openclaw_observatory.Models.Event.{Event}
use openclaw_observatory.Models.Mission.{MissionRecord, MissionUpdate, state_index}
use openclaw_observatory.Storage.Keyed.{get_mission, upsert_mission}
use openclaw_observatory.Schemas.{Schemas}
use openclaw_observatory.Exec.{ok}
use openclaw_observatory.World.{World}
use openclaw_observatory.Pipeline.Mission.{
  projected, mission_apply, known, next_started, next_completed, text_or, or_else, value_or,
  known_optional, write_projection,
}

or_else_again : (a b : Option String) → or_else a (or_else a b) ≡ or_else a b
or_else_again none b = refl
or_else_again (some a) b = ground arith

text_or_again : (a b : String) → text_or a (text_or a b) ≡ text_or a b
text_or_again a b = ground arith

started_again :
    (u : MissionUpdate) (current : Option MissionRecord) (i : ℕ) (e : Event) (t : ℕ)
    → next_started (some (projected u current i e)) i t ≡ next_started current i e.timestamp
unfolding next_started projected
started_again u none i e t = ground arith
started_again u (some r) i e t = ground arith

completed_again :
    (u : MissionUpdate) (current : Option MissionRecord) (i : ℕ) (e : Event) (t : ℕ)
    → next_completed (some (projected u current i e)) u.state t
      ≡ next_completed current u.state e.timestamp
unfolding next_completed projected
completed_again u none i e t = ground arith
completed_again u (some r) i e t = ground arith

-- An update that is applied once more, by any later event, changes the record in nothing but the
-- instant of its last change: titles, links, creation, start and end stay what they were.
pub projected_again :
    (u : MissionUpdate) (current : Option MissionRecord) (i : ℕ) (e e' : Event)
    → projected u (some (projected u current i e)) i e'
      ≡ record (projected u current i e) { updated_at = e'.received_at }
unfolding projected
projected_again u current i e e' = ground (
  arith,
  started_again u current i e e'.timestamp,
  completed_again u current i e e'.timestamp,
  text_or_again u.title (value_or (known current (λ r. r.title)) u.mission_id),
  or_else_again u.assigned_agent (known_optional current (λ r. r.assigned_agent)),
  or_else_again u.pr_ref (known_optional current (λ r. r.pr_ref)),
  or_else_again u.commit_sha (known_optional current (λ r. r.commit_sha)),
)

abbrev with_record : World → MissionRecord → World
with_record w r = record w {
  missions = record w.missions { records = insert r.mission_id r w.missions.records };
}

apply_effect :
    (schemas : Schemas) (u : MissionUpdate) (i : ℕ) (e : Event) (w : World)
    → schemas.mission_update e.payload ≡ some u
    → state_index u.state ≡ some i
    → w.missions.fail ≡ false
    → mission_apply schemas e w
      ≡ (ok tt, with_record w (projected u (lookup u.mission_id w.missions.records) i e))
unfolding mission_apply get_mission upsert_mission write_projection projected
apply_effect schemas u i e w valid index up = ground (arith, valid, index, up)

-- An update that is applied twice in a row, as by two deliveries that were both validated, leaves
-- the mission store as one application of it does, but for the instant of the last change.
pub applied_twice :
    (schemas : Schemas) (u : MissionUpdate) (i : ℕ) (e e' : Event) (w : World)
    → e'.payload ≡ e.payload
    → schemas.mission_update e.payload ≡ some u
    → state_index u.state ≡ some i
    → w.missions.fail ≡ false
    → let w' = (mission_apply schemas e w).1 in
      let r = projected u (lookup u.mission_id w.missions.records) i e in
      (lookup u.mission_id (mission_apply schemas e' w').1.missions.records
        ≡ some (record r { updated_at = e'.received_at }))
      × ((mission_apply schemas e' w').0 ≡ ok tt)
unfolding projected
applied_twice schemas u i e e' w same valid index up =
    let r = projected u (lookup u.mission_id w.missions.records) i e in
    let first = apply_effect schemas u i e w valid index up in
    let w' = with_record w r in
    let second = apply_effect schemas u i e' w' (ap schemas.mission_update same ∙ valid) index up in
    let kept = lookup-insert_self u.mission_id r w.missions.records in
    rw (first, second)
      (
        lookup-insert_self u.mission_id (projected u (lookup u.mission_id w'.missions.records) i e')
              w'.missions.records
            ∙ ap some (
                ap (λ c. projected u c i e') kept
                ∙ projected_again u (lookup u.mission_id w.missions.records) i e e'),
        refl,
      )
