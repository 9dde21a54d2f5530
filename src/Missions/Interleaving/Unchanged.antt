-- ===== src/Missions/Interleaving/Unchanged.antt =====
-- What holds of missions, events and registry however the handlers of requests interleave.
use mathlib.Core.Path.{subst}
use openclaw_observatory.Prelude.{
  ◌≡◌, ◌≢◌, refl, sym, ◌∙◌, inl, inr, String, Option, some, List, [], ◌∷◌, ◌++◌, All, In, arith,
}
use openclaw_observatory.Prelude.Dict.{lookup}
use openclaw_observatory.Exec.{ok}
use openclaw_observatory.Models.Event.{Event, EventIn, from_ingest}
use openclaw_observatory.Models.Mission.{MissionRecord, MissionUpdate, state_index}
use openclaw_observatory.Schemas.{Schemas}
use openclaw_observatory.Storage.Keyed.{get_mission}
use openclaw_observatory.World.{World}
use openclaw_observatory.Pipeline.Mission.{write_projection}
use openclaw_observatory.Pipeline.Dispatch.{mission_update_handler, handler_for, apply}
use openclaw_observatory.Pipeline.Frame.{apply-frame}
use openclaw_observatory.Missions.Interleaving.{
  Phase, validated, stored, looked, State, at, arrived, Step, accept, reject, store, fail, project,
  misread, look, look_fail, write, Run, done, next,
}
use openclaw_observatory.Missions.Interleaving.Invariant.{
  All-at, Sound, AllTraced, Invariant, same_events, step_aside, validate-Invariant, inserted_there,
  insert-Invariant, apply-missions, written, write-AllTraced,
}
use openclaw_observatory.Missions.Interleaving.Traced.{Traced, initial, Remains, Traced-Remains}

module _ (schemas : Schemas) (first : World) where
  project-Invariant :
      (w : World) (before after : List Phase) (event : Event)
      → handler_for event.event_type ≢ some mission_update_handler
      → Invariant schemas first (at w (before ++ stored event ∷ after))
      → Invariant schemas first (at (apply schemas event w).1 (before ++ after))
  project-Invariant w before after event other =
      let w' = (apply schemas event w).1 in
      let (registry, events, _) = apply-frame schemas event w in
      step_aside schemas first w w' before after (stored event) [] registry
        (apply-missions schemas first event w other) (same_events schemas first w w' events)
        (λ _. tt)

  look-Invariant :
      (w : World) (before after : List Phase) (event : Event) (u : MissionUpdate)
      (current : Option MissionRecord)
      → schemas.mission_update event.payload ≡ some u
      → get_mission u.mission_id w.missions ≡ ok current
      → Invariant schemas first (at w (before ++ stored event ∷ after))
      → Invariant schemas first (at w (before ++ looked u current event ∷ after))
  unfolding get_mission
  look-Invariant w before after event u current p got inv =
      let found : lookup u.mission_id w.missions.records ≡ current = ground arith in
      step_aside schemas first w w before after (stored event) (looked u current event ∷ []) refl
        refl (λ e m. m)
        (λ there. (
          (
            there,
            p,
            subst (Traced schemas first.missions w.events.events u.mission_id) found
                (inv.traced u.mission_id),
          ),
          tt,
        ))
        inv

  rewritten :
      (w w' : World) (pool : List Phase)
      → w'.registry ≡ w.registry
      → w'.events ≡ w.events
      → AllTraced schemas first w.events.events w'.missions
      → Invariant schemas first (at w pool)
      → Invariant schemas first (at w' pool)
  rewritten w w' pool r e all inv = record {
    registry = r ∙ inv.registry;
    events = λ x h. same_events schemas first w w' e x (inv.events x h);
    traced = subst (λ s. AllTraced schemas first s.events w'.missions) (sym e) all;
    pool = subst (λ s. All (Sound schemas first s.events) pool) (sym e) inv.pool;
  }

  write-Invariant :
      (w : World) (before after : List Phase) (event : Event) (u : MissionUpdate)
      (current : Option MissionRecord)
      → Invariant schemas first (at w (before ++ looked u current event ∷ after))
      → Invariant schemas first
          (at (write_projection u current event (state_index u.state) w).1 (before ++ after))
  write-Invariant w before after event u current inv =
      let w' = (write_projection u current event (state_index u.state) w).1 in
      let (r, e, wrote) = written schemas first u current event (state_index u.state) w in
      let x = looked u current event in
      elim wrote [
        | inl same ↦
            step_aside schemas first w w' before after x [] r same
              (same_events schemas first w w' e) (λ _. tt) inv
        | inr (i, n, m) ↦
            rewritten w w' (before ++ after) r e
              (write-AllTraced schemas first w.events.events w.missions w'.missions u current event
                i inv.traced (All-at (Sound schemas first w.events.events) before after x inv.pool)
                n m)
              (step_aside schemas first w w before after x [] refl refl (λ e m. m) (λ _. tt) inv)
      ]

  Step-Invariant :
      (s s' : State) → Step schemas s s' → Invariant schemas first s → Invariant schemas first s'
  Step-Invariant s s' (accept w before after inbound now h) inv =
      validate-Invariant schemas first w before after inbound now (validated inbound ∷ []) (tt, tt)
        inv
  Step-Invariant s s' (reject w before after inbound now e h) inv =
      validate-Invariant schemas first w before after inbound now [] tt inv
  Step-Invariant s s' (store w before after inbound stamp h) inv =
      let event = from_ingest stamp inbound in
      insert-Invariant schemas first w before after (validated inbound) event (stored event ∷ [])
        (inserted_there schemas first event w h, tt) inv
  Step-Invariant s s' (fail w before after inbound stamp e h) inv =
      insert-Invariant schemas first w before after (validated inbound) (from_ingest stamp inbound)
        [] tt inv
  Step-Invariant s s' (project w before after event h) inv =
      project-Invariant w before after event h inv
  Step-Invariant s s' (misread w before after event h p) inv =
      step_aside schemas first w w before after (stored event) [] refl refl (λ e m. m) (λ _. tt) inv
  Step-Invariant s s' (look w before after event u current h p got) inv =
      look-Invariant w before after event u current p got inv
  Step-Invariant s s' (look_fail w before after event u e h p got) inv =
      step_aside schemas first w w before after (stored event) [] refl refl (λ e m. m) (λ _. tt) inv
  Step-Invariant s s' (write w before after event u current) inv =
      write-Invariant w before after event u current inv

  Run-Invariant :
      (s s' : State) → Run schemas s s' → Invariant schemas first s → Invariant schemas first s'
  Run-Invariant s s' (done _) inv = inv
  Run-Invariant s s' (next {s' = m} step run) inv =
      Run-Invariant m s' run (Step-Invariant s m step inv)

  arrived-Sound :
      (inbounds : List EventIn) (events : List Event)
      → All (Sound schemas first events) (arrived inbounds)
  arrived-Sound [] events = tt
  arrived-Sound (i ∷ is) events = (tt, arrived-Sound is events)

-- What no interleaving changes: the registry, the events that are stored, and of each mission record
-- that it is there and the instants that it has; and where the records come from.
pub record Kept (schemas : Schemas) (w w' : World) : Type 0 where
  pub registry : w'.registry ≡ w.registry
  pub events : (e : Event) → In e w.events.events → In e w'.events.events
  pub missions :
      (k : String) (r : MissionRecord)
      → lookup k w.missions.records ≡ some r
      → Remains r (lookup k w'.missions.records)
  pub traced :
      (k : String) → Traced schemas w.missions w'.events.events k (lookup k w'.missions.records)

-- However the handlers of any number of requests are interleaved from their arrival on, another one
-- running at every await, the two awaits of a mission's projection included: the registry does not
-- change, no stored event is lost, and a mission record that was there before is there still: its
-- creation time is the same, and a start or an end that was set is the same. Every mission record comes from what was
-- on record of that mission before, by projecting stored events one after the other.
pub interleaving-Kept :
    (schemas : Schemas) (w : World) (inbounds : List EventIn) (s : State)
    → Run schemas (at w (arrived inbounds)) s
    → Kept schemas w s.world
interleaving-Kept schemas w inbounds s run =
    let inv = Run-Invariant schemas w (at w (arrived inbounds)) s run (record {
      registry = refl;
      events = λ e m. m;
      traced = λ k. initial (lookup k w.missions.records) refl;
      pool = arrived-Sound schemas w inbounds w.events.events;
    }) in
    record {
      registry = inv.registry;
      events = inv.events;
      missions = λ k r h.
          Traced-Remains schemas w.missions s.world.events.events k r h
            (lookup k s.world.missions.records) (inv.traced k);
      traced = inv.traced;
    }
