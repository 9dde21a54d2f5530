-- ===== src/Monitor/Tables.antt =====
-- The tables of the monitor page and the texts that they show.
use openclaw_observatory.Prelude.{
  ◌≡◌, refl, ◌∙◌, ℕ, ◌+◌, ◌*◌, nat_eq, String, Option, none, some, List, [], ◌∷◌, length, arith,
  if◌then◌else◌,
}
use openclaw_observatory.Prelude.Text.Html.{
  openings, openings_all, openings-concat, openings-escape,
}
use openclaw_observatory.Json.{Value}
use openclaw_observatory.Models.Event.{Event}
use openclaw_observatory.Models.Mission.{MissionRecord}
use openclaw_observatory.Models.Registry.{Connectivity, HealthStatus, HeartbeatInfo, FleetAssetView}
use openclaw_observatory.Models.Registry.Values.{asset_type_value}
use openclaw_observatory.Monitor.Text.{fmt_age, health_badge, connectivity_badge}
use openclaw_observatory.Monitor.Sections.{
  seen_at, reported_version, fleet_cells, fleet_row, fleet_rows, fleet_parts, render_fleet_section,
  render_missions_section,
}
use openclaw_observatory.Monitor.Sections.Inert.{
  no_openings, dash_text-IsInert, openings-render_missions_section,
}
use openclaw_observatory.Monitor.Events.{render_recent_events_section}
use openclaw_observatory.Monitor.Events.Inert.{
  openings-fmt_age, openings-render_recent_events_section,
}

openings-health_badge : (h : HealthStatus) → openings (health_badge h) ≡ 2
unfolding health_badge openings
openings-health_badge HealthStatus.healthy = refl
openings-health_badge HealthStatus.warning = refl
openings-health_badge HealthStatus.critical = refl
openings-health_badge HealthStatus.offline = refl
openings-health_badge HealthStatus.unknown = refl

openings-connectivity_badge : (c : Connectivity) → openings (connectivity_badge c) ≡ 2
unfolding connectivity_badge openings
openings-connectivity_badge Connectivity.online = refl
openings-connectivity_badge Connectivity.offline = refl
openings-connectivity_badge Connectivity.unknown = refl

openings-seen : (h : Option HeartbeatInfo) (now : ℕ) → openings (fmt_age (seen_at h) now) ≡ 0
unfolding openings fmt_age
openings-seen none now = refl
openings-seen (some h) now = openings-fmt_age h.timestamp now

openings-fleet_row : (now : ℕ) (a : FleetAssetView) → openings (fleet_row now a) ≡ 20
unfolding fleet_row openings openings_all
openings-fleet_row now a =
    openings-concat (fleet_cells now a)
    ∙ omega (
      arith,
      openings-escape a.fleet_id,
      openings-escape (asset_type_value a.asset_type),
      openings-escape a.role,
      openings-connectivity_badge a.connectivity,
      openings-health_badge a.health,
      openings-seen a.last_heartbeat now,
      no_openings (dash_text-IsInert (reported_version a.last_heartbeat)),
    )

openings-fleet_rows :
    (now : ℕ) (assets : List FleetAssetView)
    → openings_all (fleet_rows now assets) ≡ 20 * length assets
unfolding fleet_rows openings_all
openings-fleet_rows now [] = refl
openings-fleet_rows now (a ∷ assets) =
    omega (arith, openings-fleet_row now a, openings-fleet_rows now assets)

openings-render_fleet_section :
    (now : ℕ) (assets : List FleetAssetView)
    → openings (render_fleet_section now assets)
      ≡ (if nat_eq (length assets) 0 then 26 else 22 + 20 * length assets)
unfolding render_fleet_section openings openings_all fleet_rows
openings-render_fleet_section now [] = refl
openings-render_fleet_section now (a ∷ assets) =
    let rows = openings-fleet_rows now (a ∷ assets) in
    let table = openings-concat (fleet_rows now (a ∷ assets)) in
    openings-concat (fleet_parts (fleet_rows now (a ∷ assets))) ∙ ground (arith, rows, table)

-- The number of tags in the tables of missions, of assets and of recent events follows from the number
-- of their rows: no text of a mission, of an asset or of an event's payload adds one.
pub tables_inert :
    (str : Value → String) (now : ℕ) (missions : List MissionRecord) (assets : List FleetAssetView)
    (events : List Event)
    → (openings (render_missions_section missions)
        ≡ (if nat_eq (length missions) 0 then 24 else 20 + 16 * length missions))
      × (openings (render_fleet_section now assets)
          ≡ (if nat_eq (length assets) 0 then 26 else 22 + 20 * length assets))
      × (openings (render_recent_events_section str now events)
          ≡ (if nat_eq (length events) 0 then 22 else 18 + 12 * length events))
tables_inert str now missions assets events = (
  openings-render_missions_section missions,
  openings-render_fleet_section now assets,
  openings-render_recent_events_section str now events,
)
