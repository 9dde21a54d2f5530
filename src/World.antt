-- ===== src/World.antt =====
-- The state that the backend's services share: `app.state` of backend/app/main.py. The calls on the
-- Prometheus objects and on the audit logger are kept as lists, newest last.
use openclaw_observatory.Prelude.{ℕ, String, Option, List, [], ◌∷◌, ◌++◌}
use openclaw_observatory.Exec.{Exec, Result, modify}
use openclaw_observatory.Storage.Events.{EventStore}
use openclaw_observatory.Storage.Keyed.{RegistryStore, MissionStore, InventoryStore}

-- backend/app/metrics.py: one constructor for each metric that the services write.
pub data MetricCall : Type 0 where
  -- counters: `.labels(…).inc()`
  events_ingested_total : String → String → MetricCall
  events_ingestion_failures_total : String → MetricCall
  heartbeats_received_total : String → String → MetricCall
  offline_transitions_total : String → String → MetricCall
  -- `.labels(collector_id).observe(µs)` and `.labels(collector_id).set(n)`
  heartbeat_latency_seconds : String → ℕ → MetricCall
  collector_reported_failures : String → ℕ → MetricCall
  -- gauges: `.set(n)`
  fleet_registered_assets fleet_active_assets fleet_offline_assets fleet_unknown_assets :
      ℕ → MetricCall

-- "privileged mission backfill transition accepted", with its structured fields.
pub record AuditEntry : Type 0 where
  pub mission_id : String
  pub from_state : Option String
  pub to_state : String
  pub collector_id : String

pub record World : Type 0 where
  pub events : EventStore
  pub registry : RegistryStore
  pub missions : MissionStore
  pub inventories : InventoryStore
  pub metrics : List MetricCall
  pub audit : List AuditEntry

abbrev pub App : Type 0 → Type 0
App A = Exec World A

module _ {A : Type 0} where
  abbrev pub on_events : Exec EventStore A → App A
  on_events m w = let (r, s) = m w.events in (r, record w { events = s })

  abbrev pub on_registry : Exec RegistryStore A → App A
  on_registry m w = let (r, s) = m w.registry in (r, record w { registry = s })

  abbrev pub on_missions : Exec MissionStore A → App A
  on_missions m w = let (r, s) = m w.missions in (r, record w { missions = s })

  abbrev pub on_inventories : Exec InventoryStore A → App A
  on_inventories m w = let (r, s) = m w.inventories in (r, record w { inventories = s })

-- A read of the state, which may raise.
abbrev pub reads : {A : Type 0} → (World → Result A) → App A
reads f w = (f w, w)

abbrev pub metric : MetricCall → App (Unit {0})
metric call = modify (λ w. record w { metrics = w.metrics ++ call ∷ [] })

abbrev pub audit_log : AuditEntry → App (Unit {0})
audit_log entry = modify (λ w. record w { audit = w.audit ++ entry ∷ [] })
