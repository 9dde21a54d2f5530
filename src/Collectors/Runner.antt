-- ===== src/Collectors/Runner.antt =====
-- `CollectorRunner` of collectors/observatory_collectors/runner.py. A producer may raise, which is
-- `none`, and may keep a state `T` of its own. Clock readings and intervals are microseconds; the
-- clock is read once in a poll, and `wall n` is the wall clock before the n-th request.
pub mod DueTask
pub mod Schedule
use openclaw_observatory.Prelude.{
  ℕ, suc, ◌+◌, ◌-◌, ltb, String, Bool, true, false, Option, none, some, List, [], ◌∷◌, length,
  if◌then◌else◌,
}
use openclaw_observatory.Prelude.Int.{pos}
use openclaw_observatory.Prelude.Dict.{Dict, lookup, insert}
use openclaw_observatory.Json.{Value, Fields, end, field}
use openclaw_observatory.Exec.{Exec, Result, ok, err, key_error}
use openclaw_observatory.Collectors.Client.{Client, Reply, submit_event}

-- `EventTuple`
pub record EventTuple : Type 0 where
  pub event_type : String
  pub payload : Fields
  pub schema_version : ℕ

-- what a task produces its events by
pub data Producer (T : Type 0) : Type 0 where
  heartbeat_events : Producer T
  probe : (T → Option (List EventTuple) × T) → Producer T

pub record Task (T : Type 0) : Type 0 where
  pub name : String
  pub interval : ℕ
  pub produce : Producer T

pub record Runner (T : Type 0) : Type 0 where
  pub client : Client
  pub collector_type : String
  pub software_version : Option String
  pub started : ℕ
  pub collection_failures : ℕ
  pub next_run : Dict ℕ
  pub telemetry : T

abbrev version_field : Option String → Fields → Fields
version_field none rest = rest
version_field (some v) rest = field "software_version" (Value.str v) rest

module _ {T : Type 0} where
  -- `[heartbeat, *tasks]`
  abbrev pub all_tasks : ℕ → List (Task T) → List (Task T)
  all_tasks heartbeat_interval tasks =
      record { name = "heartbeat"; interval = heartbeat_interval; produce = heartbeat_events }
      ∷ tasks

  -- `{task.name: 0.0 for task in self._tasks}`
  unfoldable pub initial_runs : List (Task T) → Dict ℕ → Dict ℕ
  initial_runs [] d = d
  initial_runs (t ∷ ts) d = initial_runs ts (insert t.name 0 d)

  -- `collectors_version` is `observatory_collectors.__version__`; the uptime is rounded to milliseconds
  -- by `round(…, 3)`
  unfoldable pub heartbeat_payload : String → ℕ → Runner T → EventTuple
  heartbeat_payload collectors_version now r = record {
    event_type = "heartbeat";
    payload = field "collector_type" (Value.str r.collector_type) (
        field "collector_version" (Value.str collectors_version) (
          version_field r.software_version (
            field "uptime_seconds" (Value.float (pos (now - r.started))) (
              field "failures_total"
                (Value.int (pos (r.client.failures_total + r.collection_failures))) end))));
    schema_version = 1;
  }

  abbrev pub produced :
      Option (List EventTuple) × T → Runner T → Option (List EventTuple) × Runner T
  produced (events, t) r = (events, record r { telemetry = t })

  unfoldable pub run_producer :
      String → ℕ → Producer T → Runner T → Option (List EventTuple) × Runner T
  unfolding heartbeat_payload
  run_producer version now heartbeat_events r = (some (heartbeat_payload version now r ∷ []), r)
  run_producer version now (probe f) r = produced (f r.telemetry) r

  module _ (post : ℕ → Reply) (version : String) (wall : ℕ → ℕ) where
    -- the inner loop: how many events were accepted; an exception of `submit_event` escapes
    unfoldable pub submit_all : List EventTuple → ℕ → Exec (Runner T) ℕ
    submit_all [] submitted r = (ok submitted, r)
    submit_all (e ∷ es) submitted r =
        let (q, c) =
          submit_event post e.event_type e.payload e.schema_version (wall (length r.client.sent))
            r.client in
        elim q [
          | err x ↦ (err x, record r { client = c })
          | ok accepted ↦
              submit_all es (if accepted then suc submitted else submitted)
                (record r { client = c })
        ]

    -- what the runner does with what a task produced
    unfoldable pub take_events : ℕ → Option (List EventTuple) × Runner T → Result ℕ × Runner T
    unfolding submit_all
    take_events submitted (none, r) =
        (ok submitted, record r { collection_failures = suc r.collection_failures })
    take_events submitted (some events, r) = submit_all events submitted r

    -- One due task.
    unfoldable pub run_task : ℕ → Task T → ℕ → Exec (Runner T) ℕ
    unfolding take_events run_producer
    run_task now task submitted r = take_events submitted (
        run_producer version now task.produce
          (record r { next_run = insert task.name (now + task.interval) r.next_run }))

    -- The loop of `run_pending`.
    unfoldable pub run_tasks : ℕ → List (Task T) → ℕ → Exec (Runner T) ℕ
    unfolding run_task
    run_tasks now [] submitted r = (ok submitted, r)
    run_tasks now (task ∷ rest) submitted r =
        let later = run_tasks now rest submitted r in
        let (q, r') = run_task now task submitted r in
        let done : Result ℕ × Runner T = elim q [
          | err e ↦ (err e, r')
          | ok n ↦ run_tasks now rest n r'
        ] in
        elim (lookup task.name r.next_run) [
          | none ↦ (err key_error, r)
          | some due ↦ if ltb now due then later else done
        ]

    unfoldable pub run_pending : ℕ → List (Task T) → Exec (Runner T) ℕ
    unfolding run_tasks
    run_pending now tasks r = run_tasks now tasks 0 r

    unfoldable pub run_once : ℕ → List (Task T) → Exec (Runner T) ℕ
    unfolding run_pending initial_runs
    run_once now tasks r =
        run_pending now tasks (record r { next_run = initial_runs tasks r.next_run })
