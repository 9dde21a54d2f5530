-- ===== src/Missions/Interleaving.antt =====
-- Requests that are served side by side. Each `await` of `ingest_event` in backend/app/api/v1/events.py
-- may let another request run, and so may each of the two in `MissionUpdateHandler.apply`
-- (backend/app/services/pipeline.py): one step validates, one stores the event, and one applies it or,
-- for a mission, one reads the record and one writes the next.
pub mod Traced
pub mod Invariant
pub mod Unchanged
use openclaw_observatory.Prelude.{ℕ, ◌≡◌, ◌≢◌, Option, none, some, List, [], ◌∷◌, ◌++◌}
use openclaw_observatory.Models.Event.{Event, EventIn, Stamp, from_ingest}
use openclaw_observatory.Models.Mission.{MissionRecord, MissionUpdate, state_index}
use openclaw_observatory.Schemas.{Schemas}
use openclaw_observatory.Exec.{Exn, ok, err}
use openclaw_observatory.Storage.Events.{insert_event}
use openclaw_observatory.Storage.Keyed.{get_mission}
use openclaw_observatory.World.{World, on_events}
use openclaw_observatory.Pipeline.Mission.{write_projection}
use openclaw_observatory.Pipeline.Dispatch.{mission_update_handler, handler_for, validate, apply}

-- how far a request is
pub data Phase : Type 0 where
  received : EventIn → Phase
  validated : EventIn → Phase
  stored : Event → Phase
  -- between the two awaits of `MissionUpdateHandler.apply`: the record that was there
  looked : MissionUpdate → Option MissionRecord → Event → Phase

pub record State : Type 0 where
  pub world : World
  pub pool : List Phase

abbrev pub at : World → List Phase → State
at w pool = record { world = w; pool = pool }

-- requests that have just come in
abbrev pub arrived : List EventIn → List Phase
arrived [] = []
arrived (inbound ∷ rest) = received inbound ∷ arrived rest

-- One request of the pool moves on; the clock and the stamp are what they are at that moment.
pub data Step (schemas : Schemas) : State → State → Type 0 where
  accept :
      (w : World) (before after : List Phase) (inbound : EventIn) (now : ℕ)
      → (validate schemas now inbound w).0 ≡ ok tt
      → Step schemas
          (at w (before ++ received inbound ∷ after))
          (at (validate schemas now inbound w).1 (before ++ validated inbound ∷ after))
  reject :
      (w : World) (before after : List Phase) (inbound : EventIn) (now : ℕ) (e : Exn)
      → (validate schemas now inbound w).0 ≡ err e
      → Step schemas
          (at w (before ++ received inbound ∷ after))
          (at (validate schemas now inbound w).1 (before ++ after))
  store :
      (w : World) (before after : List Phase) (inbound : EventIn) (stamp : Stamp)
      → (on_events (insert_event (from_ingest stamp inbound)) w).0 ≡ ok tt
      → Step schemas (at w (before ++ validated inbound ∷ after)) (
          at
            (on_events (insert_event (from_ingest stamp inbound)) w).1
            (before ++ stored (from_ingest stamp inbound) ∷ after))
  fail :
      (w : World) (before after : List Phase) (inbound : EventIn) (stamp : Stamp) (e : Exn)
      → (on_events (insert_event (from_ingest stamp inbound)) w).0 ≡ err e
      → Step schemas
          (at w (before ++ validated inbound ∷ after))
          (at (on_events (insert_event (from_ingest stamp inbound)) w).1 (before ++ after))
  -- every projection but that of a mission has one await at most
  project :
      (w : World) (before after : List Phase) (event : Event)
      → handler_for event.event_type ≢ some mission_update_handler
      → Step schemas
          (at w (before ++ stored event ∷ after))
          (at (apply schemas event w).1 (before ++ after))
  misread :
      (w : World) (before after : List Phase) (event : Event)
      → handler_for event.event_type ≡ some mission_update_handler
      → schemas.mission_update event.payload ≡ none
      → Step schemas (at w (before ++ stored event ∷ after)) (at w (before ++ after))
  look :
      (w : World) (before after : List Phase) (event : Event) (update : MissionUpdate)
      (current : Option MissionRecord)
      → handler_for event.event_type ≡ some mission_update_handler
      → schemas.mission_update event.payload ≡ some update
      → get_mission update.mission_id w.missions ≡ ok current
      → Step schemas
          (at w (before ++ stored event ∷ after))
          (at w (before ++ looked update current event ∷ after))
  look_fail :
      (w : World) (before after : List Phase) (event : Event) (update : MissionUpdate) (e : Exn)
      → handler_for event.event_type ≡ some mission_update_handler
      → schemas.mission_update event.payload ≡ some update
      → get_mission update.mission_id w.missions ≡ err e
      → Step schemas (at w (before ++ stored event ∷ after)) (at w (before ++ after))
  write :
      (w : World) (before after : List Phase) (event : Event) (update : MissionUpdate)
      (current : Option MissionRecord)
      → Step schemas (at w (before ++ looked update current event ∷ after)) (
          at
            (write_projection update current event (state_index update.state) w).1
            (before ++ after))

pub data Run (schemas : Schemas) : State → State → Type 0 where
  done : (s : State) → Run schemas s s
  next : {s s' s'' : State} → Step schemas s s' → Run schemas s' s'' → Run schemas s s''
