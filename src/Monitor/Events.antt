-- ===== src/Monitor/Events.antt =====
-- The recent events of backend/app/services/monitor.py. `str` is Python's `str` of a value.
pub mod Inert
use Prim.Native.String.{◌++◌}
use openclaw_observatory.Prelude.{
  ℕ, String, Bool, ◌||◌, ◌==◌, Option, none, some, List, [], ◌∷◌, if◌then◌else◌,
}
use openclaw_observatory.Prelude.Text.Html.{escape, concat}
use openclaw_observatory.Prelude.Text.Scan.{prefix}
use openclaw_observatory.Json.{Value, Fields, get, truthy}
use openclaw_observatory.Models.Event.{Event}
use openclaw_observatory.Monitor.Text.{version_label, fmt_age}

-- `str(payload.get(key, "?"))`
abbrev shown : (Value → String) → Option Value → String
shown str none = "?"
shown str (some v) = str v

module _ (str : Value → String) where
  abbrev arrow : String → String → String
  arrow before after = before ++ " → " ++ after

  abbrev commit_text : Option Value → String
  commit_text none = "unknown"
  commit_text (some v) = if truthy v then prefix 12 (str v) else "unknown"

  -- whether `payload.get("backfill")` holds
  abbrev is_backfill : Option Value → Bool
  is_backfill none = Bool.false
  is_backfill (some v) = truthy v

  -- the text before it is escaped
  unfoldable pub detail_text : Event → String
  unfolding get truthy prefix version_label
  detail_text event =
      let at : String → String = λ key. shown str (get key event.payload) in
      if event.event_type == "mission_update"
      then (if is_backfill (get "backfill" event.payload)
          then arrow (at "mission_id") (at "state") ++ " (backfill)"
          else arrow (at "mission_id") (at "state"))
      else if event.event_type == "asset_offline" || event.event_type == "asset_online"
      then arrow (at "previous") (at "current")
      else if event.event_type == "service_start"
      then version_label (at "version")
        ++ " · commit "
        ++ commit_text (get "git_commit" event.payload)
      else prefix 120 (str (Value.obj event.payload))

  unfoldable pub event_detail : Event → String
  unfolding detail_text escape
  event_detail event = escape (detail_text event)

  abbrev pub event_cells : ℕ → Event → List String
  event_cells now e =
      "<tr><td>"
      ∷ fmt_age (some e.timestamp) now
      ∷ "</td><td>"
      ∷ escape e.collector_id
      ∷ "</td><td><span class=\"badge state\">"
      ∷ escape e.event_type
      ∷ "</span></td><td>"
      ∷ event_detail e
      ∷ "</td></tr>"
      ∷ []

  unfoldable pub event_row : ℕ → Event → String
  unfolding concat fmt_age escape event_detail
  event_row now e = concat (event_cells now e)

  unfoldable pub event_rows : ℕ → List Event → List String
  unfolding event_row
  event_rows now [] = []
  event_rows now (e ∷ events) = event_row now e ∷ event_rows now events

  abbrev or_none_yet : List String → List String
  or_none_yet [] = "<tr><td colspan=\"4\" class=\"muted\">no notable events yet</td></tr>" ∷ []
  or_none_yet (row ∷ rows) = row ∷ rows

  abbrev pub events_parts : List String → List String
  events_parts rows =
      "<section><h2>Recent Events (last 20)</h2><table><tr><th>When</th><th>Asset</th><th>Event</th><th>Detail</th></tr>"
      ∷ concat (or_none_yet rows)
      ∷ "</table><p class=\"muted\">heartbeats are summarized as offline/online transitions, not listed individually</p></section>"
      ∷ []

  unfoldable pub render_recent_events_section : ℕ → List Event → String
  unfolding event_rows concat
  render_recent_events_section now events = concat (events_parts (event_rows now events))
