-- ===== src/Monitor/Events/Inert.antt =====
-- Data of events that is shown opens no tag.
use openclaw_observatory.Prelude.{
  ◌≡◌, refl, ◌∙◌, ℕ, ◌+◌, ◌-◌, ◌*◌, nat_eq, String, some, List, [], ◌∷◌, length, arith,
  if◌then◌else◌,
}
use openclaw_observatory.Prelude.Int.{pos}
use openclaw_observatory.Prelude.Text.Html.{
  openings, openings_all, openings-concat, openings-escape, openings-append,
}
use openclaw_observatory.Json.{Value}
use openclaw_observatory.Models.Event.{Event}
use openclaw_observatory.Monitor.Text.{fmt_age, fmt_duration}
use openclaw_observatory.Monitor.Sections.Inert.{no_openings, fmt_duration-IsInert}
use openclaw_observatory.Monitor.Events.{
  detail_text, event_detail, event_cells, event_row, event_rows, events_parts,
  render_recent_events_section,
}

pub openings-fmt_age : (timestamp now : ℕ) → openings (fmt_age (some timestamp) now) ≡ 0
unfolding fmt_age openings
openings-fmt_age timestamp now =
    openings-append (fmt_duration (some (pos (now - timestamp)))) " ago"
    ∙ ground (arith, no_openings (fmt_duration-IsInert (some (pos (now - timestamp)))))

module _ (str : Value → String) where
  openings-event_row : (now : ℕ) (e : Event) → openings (event_row str now e) ≡ 12
  unfolding event_row openings openings_all event_detail
  openings-event_row now e =
      openings-concat (event_cells str now e)
      ∙ omega (
        arith,
        openings-fmt_age e.timestamp now,
        openings-escape e.collector_id,
        openings-escape e.event_type,
        openings-escape (detail_text str e),
      )

  openings-event_rows :
      (now : ℕ) (es : List Event) → openings_all (event_rows str now es) ≡ 12 * length es
  unfolding event_rows openings_all
  openings-event_rows now [] = refl
  openings-event_rows now (e ∷ es) =
      omega (arith, openings-event_row now e, openings-event_rows now es)

  -- The table of recent events holds 18 tags and 12 more for each event, or 22 if there is none,
  -- whatever the payloads hold and however their values are written.
  pub openings-render_recent_events_section :
      (now : ℕ) (es : List Event)
      → openings (render_recent_events_section str now es)
        ≡ (if nat_eq (length es) 0 then 22 else 18 + 12 * length es)
  unfolding render_recent_events_section openings openings_all event_rows
  openings-render_recent_events_section now [] = refl
  openings-render_recent_events_section now (e ∷ es) =
      let rows = openings-event_rows now (e ∷ es) in
      let table = openings-concat (event_rows str now (e ∷ es)) in
      openings-concat (events_parts str (event_rows str now (e ∷ es))) ∙ ground (arith, rows, table)
