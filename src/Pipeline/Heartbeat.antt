-- ===== src/Pipeline/Heartbeat.antt =====
-- `HeartbeatHandler` of backend/app/services/pipeline.py.
use openclaw_observatory.Prelude.{ℕ, ◌+◌, ◌-◌, not, none, some, ltb, is_some}
use openclaw_observatory.Models.Event.{Event, EventIn}
use openclaw_observatory.Storage.Keyed.{get_asset}
use openclaw_observatory.Schemas.{Schemas}
use openclaw_observatory.Exec.{pipeline_rejection, value_error, raise, raise_if, ◌>>=◌, ◌>>◌}
use openclaw_observatory.World.{
  App, reads, metric, heartbeat_latency_seconds, heartbeats_received_total,
  collector_reported_failures,
}

-- five minutes
abbrev pub max_future_skew : ℕ
max_future_skew = 300000000

module _ (schemas : Schemas) where
  unfoldable pub heartbeat_validate : ℕ → EventIn → App (Unit {0})
  heartbeat_validate now inbound = elim (schemas.heartbeat_payload inbound.payload) [
    | none ↦ raise (pipeline_rejection 422 "validation_error")
    | some _ ↦ do
      raise_if (ltb (now + max_future_skew) inbound.timestamp)
          (pipeline_rejection 422 "timestamp_skew")
      asset ← reads (λ w. get_asset inbound.collector_id w.registry)
      raise_if (not (is_some asset)) (pipeline_rejection 403 "unknown_fleet_id")
  ]

  -- `ValidationError` is a `ValueError`; the truncated difference is `max(latency, 0.0)`.
  unfoldable pub heartbeat_apply : Event → App (Unit {0})
  heartbeat_apply event = elim (schemas.heartbeat_payload event.payload) [
    | none ↦ raise value_error
    | some payload ↦ do
      metric (heartbeat_latency_seconds event.collector_id (event.received_at - event.timestamp))
      metric (heartbeats_received_total event.collector_id payload.collector_type)
      metric (collector_reported_failures event.collector_id payload.failures_total)
  ]
