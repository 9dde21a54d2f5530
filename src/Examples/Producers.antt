-- ===== src/Examples/Producers.antt =====
-- The theorems on the collectors at concrete inputs.
use openclaw_observatory.Prelude.{
  ℕ, ◌+◌, ◌<◌, ◌≡◌, ◌≢◌, inl, refl, String, Bool, false, Option, true, none, some, [], ◌∷◌, head?,
  length, arith, ltb, if◌then◌else◌, eq_iff,
}
use openclaw_observatory.Prelude.Dict.{lookup}
use openclaw_observatory.Json.{Value, Fields, end, field, get, as_str}
use openclaw_observatory.Models.Mission.{MissionUpdate}
use openclaw_observatory.Exec.{Exn, ok}
use openclaw_observatory.Collectors.Client.{
  Reply, accepted, http_error, uncaught, Client, submit_event,
}
use openclaw_observatory.Collectors.Client.Delivery.{
  Delivered, IsTransient, submit_event-Delivered, transient_failures_overcome,
}
use openclaw_observatory.Collectors.Runner.{Task, Runner, probe, run_pending}
use openclaw_observatory.Collectors.Runner.Schedule.{second_poll_idle}
use openclaw_observatory.Collectors.Agent.{produce_mission_updates, update_event, text_at}
use openclaw_observatory.Collectors.Agent.Forwarding.{forwarded_once, all_due}
use openclaw_observatory.Collectors.Inventory.{InventoryTelemetry, Poll, sent_at}
use openclaw_observatory.Collectors.Inventory.Cadence.{
  Spaced, unchanged_host-Spaced, change_sent_at_once,
}
use openclaw_observatory.Schemas.{Schemas}
use openclaw_observatory.Models.Event.{EventIn}
use openclaw_observatory.Pipeline.Mission.{value_or}
use openclaw_observatory.Examples.{sample_schemas, sample_update, mission_in}

abbrev client : Client
client = record { fleet_id = "RPSG01"; max_retries = 3; failures_total = 0; sent = []; slept = [] }

-- The second request is accepted.
abbrev flaky : ℕ → Reply
flaky n = if ltb 0 n then accepted else http_error 503

submit_event-Delivered_example :
    let (r, c) = submit_event flaky "heartbeat" end 1 5 client in Delivered flaky 4 r client c
submit_event-Delivered_example = submit_event-Delivered flaky "heartbeat" end 1 5 client

IsTransient-before : (i : ℕ) → i < 1 → IsTransient (flaky (0 + i))
IsTransient-before i lt = let q : i ≡ 0 = omega (arith, lt) in rw q refl

transient_failures_overcome_example :
    let (r, c) = submit_event flaky "heartbeat" end 1 5 client in
    (r ≡ ok true) × (length c.sent ≡ 0 + 1 + 1)
transient_failures_overcome_example =
    transient_failures_overcome flaky "heartbeat" end 1 5 1 client (omega arith) IsTransient-before
      refl

abbrev metrics_task : Task (Unit {0})
metrics_task = record { name = "system_metrics"; interval = 30; produce = probe (λ t. (none, t)) }

abbrev runner : Runner (Unit {0})
runner = record {
  client = client;
  collector_type = "host-pi";
  software_version = none;
  started = 0;
  collection_failures = 0;
  next_run = ("system_metrics", 0) ∷ [];
  telemetry = tt;
}

scheduled_now : lookup "system_metrics" runner.next_run ≡ some 0
unfolding lookup
scheduled_now = refl

flaky-Caught : (n : ℕ) (e : Exn) → flaky n ≢ uncaught e
flaky-Caught n e = ground arith

second_poll_idle_example :
    let (res, r) = run_pending flaky "1" (λ n. n) 100 (metrics_task ∷ []) runner in
    ((m : ℕ) × (res ≡ ok m))
    × (run_pending flaky "1" (λ n. n) 100 (metrics_task ∷ []) r ≡ (ok 0, r))
second_poll_idle_example =
    second_poll_idle flaky "1" (λ n. n) flaky-Caught 100 (metrics_task ∷ []) runner
      ((omega arith), tt) ((0, scheduled_now), tt)

abbrev in_flight : Fields
in_flight = field "mission_id" (Value.str "M1") (field "state" (Value.str "Running") end)

forwarded_once_example :
    let (es, s) = produce_mission_updates (in_flight ∷ []) [] in
    (es ≡ all_due [] (in_flight ∷ [])) × (produce_mission_updates (in_flight ∷ []) s ≡ ([], s))
forwarded_once_example = forwarded_once [] (in_flight ∷ []) (tt, tt)

-- One event is due there.
due_in_flight : length (all_due [] (in_flight ∷ [])) ≡ 1
unfolding lookup get as_str
due_in_flight = refl

abbrev flag_of : Option Value → Bool
flag_of (some (Value.bool b)) = b
flag_of _ = false

abbrev parsed : Fields → MissionUpdate
parsed fs = record (sample_update fs) {
  state = value_or (text_at "state" fs) "";
  backfill = flag_of (get "backfill" fs);
}

abbrev parsing : Schemas
parsing = record sample_schemas { mission_update = λ fs. some (parsed fs) }

abbrev forwarded_in : EventIn
forwarded_in = record (mission_in "Running") {
  payload = (update_event [] "M1" "Running" in_flight).payload;
}

abbrev telemetry : InventoryTelemetry
telemetry = record { interval = 100; last_sent = some 0; last_signature = some "sig" }

abbrev poll_at : ℕ → String → Poll
poll_at now signature = record {
  now = now;
  identity = end;
  signature = signature;
  maintenance = Value.null;
}

unchanged_host-Spaced_example :
    Spaced 100 0 (sent_at (poll_at 50 "sig" ∷ poll_at 150 "sig" ∷ []) telemetry)
unchanged_host-Spaced_example =
    unchanged_host-Spaced (poll_at 50 "sig" ∷ poll_at 150 "sig" ∷ []) telemetry 0 "sig" (refl, refl)
      (refl, (refl, tt))

abbrev new_signature : String
new_signature = "new"

signature_changed : new_signature ≢ "sig"
signature_changed = ground (arith, eq_iff "new" "sig")

change_sent_at_once_example : head? (sent_at (poll_at 50 "new" ∷ []) telemetry) ≡ some 50
change_sent_at_once_example =
    change_sent_at_once (poll_at 50 "new") [] telemetry 0 "sig" (refl, refl) (inl signature_changed)
