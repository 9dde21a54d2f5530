-- ===== src/Storage/Events.antt =====
-- The event store: `InMemoryEventStorage`, and `EventStorage.latest_event`, which stands on its query.
pub mod Latest
use openclaw_observatory.Prelude.{
  ℕ, String, Bool, true, false, not, ◌&&◌, ◌==◌, Option, none, some, List, [], ◌∷◌, ◌++◌, take,
  head?, select, any, if◌then◌else◌,
}
use openclaw_observatory.Prelude.Sort.{sort_desc}
use openclaw_observatory.Models.Event.{Event}
use openclaw_observatory.Exec.{Exec, Result, storage_error, ok, err}

pub record EventStore : Type 0 where
  pub events : List Event
  pub started : Bool
  pub fail : Bool

unfoldable pub startup : Exec EventStore (Unit {0})
startup s = if s.fail then (err storage_error, s) else (ok tt, record s { started = true })

unfoldable pub shutdown : Exec EventStore (Unit {0})
shutdown s = (ok tt, record s { started = false })

-- Reads change nothing, so they return the result alone.
unfoldable pub ping : EventStore → Bool
ping s = not s.fail

unfoldable pub insert_event : Event → Exec EventStore (Unit {0})
insert_event event s =
    if s.fail then (err storage_error, s) else (ok tt, record s { events = s.events ++ event ∷ [] })

-- The optional filters of `query_events`; `none` is `None`.
pub record Query : Type 0 where
  pub collector_id : Option String
  pub event_type : Option String
  pub event_types : Option (List String)
  pub limit : ℕ

-- `filter is None or value == filter`
abbrev pub matches_text : Option String → String → Bool
matches_text none value = true
matches_text (some want) value = value == want

abbrev pub matches_any : Option (List String) → String → Bool
matches_any none value = true
matches_any (some want) value = any (λ t. value == t) want

unfoldable pub selected : Query → Event → Bool
selected q event =
    matches_text q.collector_id event.collector_id
    && (matches_text q.event_type event.event_type && matches_any q.event_types event.event_type)

unfoldable pub query_events : Query → EventStore → Result (List Event)
query_events q s =
    if s.fail
    then err storage_error
    else ok (take q.limit (sort_desc (λ e. e.received_at) (select (selected q) s.events)))

abbrev pub latest_query : String → String → Query
latest_query collector_id event_type = record {
  collector_id = some collector_id;
  event_type = some event_type;
  event_types = none;
  limit = 1;
}

-- `EventStorage.latest_event`
unfoldable pub latest_event : String → String → EventStore → Result (Option Event)
latest_event collector_id event_type s =
    elim (query_events (latest_query collector_id event_type) s) [
      | ok events ↦ ok (head? events)
      | err e ↦ err e
    ]
