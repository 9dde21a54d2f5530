-- ===== src/Monitor/Sections.antt =====
-- The tables of missions and of assets, and the labels of the header, in
-- backend/app/services/monitor.py.
pub mod Inert
use Prim.Native.String.{◌++◌}
use openclaw_observatory.Prelude.{
  ℕ, String, Bool, true, false, not, ◌==◌, ◌&&◌, is_some, Option, none, some, List, [], ◌∷◌,
  if◌then◌else◌,
}
use openclaw_observatory.Prelude.Text.{join}
use openclaw_observatory.Prelude.Text.Html.{escape, concat}
use openclaw_observatory.Models.Mission.{MissionRecord, duration_seconds}
use openclaw_observatory.Models.Registry.{FleetAssetView, HeartbeatInfo}
use openclaw_observatory.Models.Registry.Values.{asset_type_value}
use openclaw_observatory.Monitor.Text.{
  dash_text, version_label, fmt_duration, fmt_age, health_badge, connectivity_badge,
}

abbrev pub mission_cells : MissionRecord → List String
mission_cells m =
    "<tr><td>"
    ∷ escape m.mission_id
    ∷ "</td><td>"
    ∷ escape m.title
    ∷ "</td><td>"
    ∷ dash_text m.assigned_agent
    ∷ "</td><td><span class=\"badge state\">"
    ∷ escape m.state
    ∷ "</span></td><td>"
    ∷ fmt_duration (duration_seconds m)
    ∷ "</td><td>"
    ∷ dash_text m.pr_ref
    ∷ "</td></tr>"
    ∷ []

unfoldable pub mission_row : MissionRecord → String
unfolding concat escape dash_text fmt_duration duration_seconds
mission_row m = concat (mission_cells m)

unfoldable pub mission_rows : List MissionRecord → List String
unfolding mission_row
mission_rows [] = []
mission_rows (m ∷ ms) = mission_row m ∷ mission_rows ms

abbrev pub or_note : List String → String → List String
or_note [] note = note ∷ []
or_note (row ∷ rows) note = row ∷ rows

abbrev pub missions_parts : List String → List String
missions_parts rows =
    "<section><h2>Missions</h2><table><tr><th>ID</th><th>Title</th><th>Agent</th><th>State</th><th>Duration</th><th>PR</th></tr>"
    ∷ concat
        (or_note rows "<tr><td colspan=\"6\" class=\"muted\">no missions tracked yet</td></tr>")
    ∷ "</table></section>"
    ∷ []

unfoldable pub render_missions_section : List MissionRecord → String
unfolding mission_rows concat
render_missions_section missions = concat (missions_parts (mission_rows missions))

abbrev pub seen_at : Option HeartbeatInfo → Option ℕ
seen_at none = none
seen_at (some h) = some h.timestamp

abbrev pub reported_version : Option HeartbeatInfo → Option String
reported_version none = none
reported_version (some h) = h.collector_version

abbrev pub fleet_cells : ℕ → FleetAssetView → List String
fleet_cells now a =
    "<tr><td>"
    ∷ escape a.fleet_id
    ∷ "</td><td>"
    ∷ escape (asset_type_value a.asset_type)
    ∷ "</td><td>"
    ∷ escape a.role
    ∷ "</td><td>"
    ∷ connectivity_badge a.connectivity
    ∷ "</td><td>"
    ∷ health_badge a.health
    ∷ "</td><td>"
    ∷ fmt_age (seen_at a.last_heartbeat) now
    ∷ "</td><td>"
    ∷ dash_text (reported_version a.last_heartbeat)
    ∷ "</td></tr>"
    ∷ []

unfoldable pub fleet_row : ℕ → FleetAssetView → String
unfolding concat escape dash_text fmt_age health_badge connectivity_badge
fleet_row now a = concat (fleet_cells now a)

unfoldable pub fleet_rows : ℕ → List FleetAssetView → List String
unfolding fleet_row
fleet_rows now [] = []
fleet_rows now (a ∷ assets) = fleet_row now a ∷ fleet_rows now assets

abbrev pub fleet_parts : List String → List String
fleet_parts rows =
    "<section><h2>Fleet &amp; Services</h2><table><tr><th>Fleet ID</th><th>Type</th><th>Role</th><th>Connectivity</th><th>Health</th><th>Last heartbeat</th><th>Collector</th></tr>"
    ∷ concat (or_note rows "<tr><td colspan=\"7\" class=\"muted\">registry is empty</td></tr>")
    ∷ "</table></section>"
    ∷ []

unfoldable pub render_fleet_section : ℕ → List FleetAssetView → String
unfolding fleet_rows concat
render_fleet_section now assets = concat (fleet_parts (fleet_rows now assets))

-- the mission that the projection shows last, of those that are not completed
unfoldable pub unfinished_label : List MissionRecord → Option String
unfolding escape concat
unfinished_label [] = none
unfinished_label (m ∷ ms) = elim (unfinished_label ms) [
  | some label ↦ some label
  | none ↦
      if m.state == "Completed"
      then none
      else some (concat (escape m.mission_id ∷ " (" ∷ escape m.state ∷ ")" ∷ []))
]

abbrev nonblank : Option String → Option String
nonblank none = none
nonblank (some s) = if s == "" then none else some s

-- The first two arguments are what the agent reports as its active mission and that mission's state.
unfoldable pub active_mission_label : Option String → Option String → List MissionRecord → String
unfolding escape concat unfinished_label
active_mission_label mission state missions = elim (nonblank mission) [
  | some m ↦ elim (nonblank state) [
    | some s ↦ concat (escape m ∷ " (" ∷ escape s ∷ ")" ∷ [])
    | none ↦ escape m
  ]
  | none ↦ elim (unfinished_label missions) [ some label ↦ label | none ↦ "none" ]
]

unfoldable pub version_parts : String → List FleetAssetView → List String
unfolding escape version_label
version_parts backend [] = []
version_parts backend (a ∷ assets) =
    let rest = version_parts backend assets in
    elim (nonblank (reported_version a.last_heartbeat)) [
      | none ↦ rest
      | some v ↦
          if a.fleet_id == backend
          then rest
          else (escape a.fleet_id ++ " " ++ escape (version_label v)) ∷ rest
    ]

unfoldable pub collector_versions_label : String → List FleetAssetView → String
unfolding version_parts join
collector_versions_label backend assets = elim (version_parts backend assets) [
  | [] ↦ "none reporting"
  | p ∷ ps ↦ join ", " (p ∷ ps)
]
