-- ===== src/Ingest.antt =====
-- `POST /api/v1/events`: backend/app/api/v1/events.py. `now` is what the heartbeat handler's clock
-- shows, `stamp` what `Event.from_ingest` draws.
pub mod Outcomes
pub mod Safety
pub mod Serve
use openclaw_observatory.Prelude.{
  ℕ, String, Bool, not, Option, none, some, List, ◌==◌, if◌then◌else◌,
}
use openclaw_observatory.Models.Event.{EventIn, EventAccepted, Stamp, from_ingest}
use openclaw_observatory.Storage.Events.{insert_event}
use openclaw_observatory.Auth.{CollectorPrincipal, require_collector}
use openclaw_observatory.Schemas.{Schemas}
use openclaw_observatory.Exec.{
  Exn, Exec, pipeline_rejection, storage_error, http_exception, pure, raise, try_except,
  on_storage_error, ◌>>=◌, ◌>>◌,
}
use openclaw_observatory.World.{
  App, on_events, metric, events_ingested_total, events_ingestion_failures_total,
}
use openclaw_observatory.Pipeline.Dispatch.{validate, apply}

-- counts the failure and answers with the status
abbrev pub refuse : {A : Type 0} → String → ℕ → App A
refuse reason status = do
  metric (events_ingestion_failures_total reason)
  raise (http_exception status)

-- `except PipelineRejection as rejection`
abbrev pub on_rejection : {A : Type 0} → Exn → Option (App A)
on_rejection (pipeline_rejection status reason) = some (refuse reason status)
on_rejection _ = none

module _ (schemas : Schemas) where
  unfoldable pub ingest_event : CollectorPrincipal → ℕ → Stamp → EventIn → App EventAccepted
  unfolding insert_event from_ingest
  ingest_event principal now stamp inbound =
      if not (inbound.collector_id == principal.subject) then refuse "identity_mismatch" 403 else do
        try_except (validate schemas now inbound) on_rejection
        let event = from_ingest stamp inbound
        try_except (on_events (insert_event event)) (on_storage_error (refuse "storage_error" 503))
        try_except (apply schemas event) (on_storage_error (refuse "projection_error" 503))
        metric (events_ingested_total inbound.collector_id inbound.event_type)
        pure (record { id = stamp.id; received_at = stamp.received_at; status = "accepted" })

  -- The route with its dependency on `require_collector`.
  unfoldable pub post_event :
      List (String × String) → Option String → ℕ → Stamp → EventIn → App EventAccepted
  post_event bindings api_key now stamp inbound = do
    principal ← require_collector bindings api_key
    ingest_event principal now stamp inbound
