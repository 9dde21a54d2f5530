-- ===== src/Lib.antt =====
-- OpenClaw Observatory: the backend that takes in telemetry of a fleet, and the collectors that send it.
--
-- The backend (backend/app) keeps four stores: the event stream, the Fleet Registry, the mission
-- records and the host inventories. `POST /api/v1/events` (api/v1/events.py) authenticates an API key
-- (auth.py), holds it against the identity that the event names, lets the handler of the event's type
-- validate it (services/pipeline.py), stores the event and applies its projection. The registry service
-- (services/registry.py) derives connectivity and health (services/health.py) from stored heartbeats;
-- the offline detector (services/offline.py) reports changes of connectivity as events of its own. The
-- collectors (collectors/observatory_collectors) produce events on a schedule (runner.py) and deliver
-- them with retries (client.py).
--
-- Files, and the code that they are about:
--   Prelude, Prelude/*: texts, lists, dicts, sorting, integers; Exec: calls that may raise.
--   Prelude/Text/*: Python's str methods, numbers in texts and html.escape.
--   Json: payloads; Models/*: backend/app/models; Config/*: backend/app/config.py.
--   Storage/*: backend/app/storage/memory.py and base.py; World: what backend/app/main.py shares.
--   Storage/Clickhouse/*: backend/app/storage/clickhouse.py: rows, stores and their refinement of the
--   in-memory ones, and Migrations, the schema bootstrap.
--   Schemas: what pydantic makes of payloads, a parameter; Auth/*: backend/app/auth.py.
--   Pipeline/*: backend/app/services/pipeline.py, a handler to a file, and the dispatch.
--   Ingest/*: backend/app/api/v1/events.py; Missions/*: the mission projection over a whole history.
--   Registry: services/registry.py; Health/*: services/health.py; Offline/*: services/offline.py;
--   Seed/*: services/seed.py; Api/*: the read routes and services/startup_event.py.
--   Collectors/Client, Runner, Agent, Inventory, Docker: client.py, runner.py,
--   openclaw_agent/collector.py, host_pi/collector.py and host_pi/docker_stats.py.
--   Collectors/Configuration: config.py; Collectors/Metrics: host_pi/metrics.py; Collectors/Agent/Probes:
--   openclaw_agent/probes.py; Collectors/Docker/Parse: host_pi/docker_stats.py; Collectors/Inventory/Hardware,
--   Disks, Storage, System, Maintenance: host_pi/inventory.py.
--   Monitor/*: backend/app/services/monitor.py, its snapshot, formats and tables.
--   Spa/*: backend/app/spa.py; Version: backend/app/version.py.
--   Middleware/*: the request size limit of backend/app/middleware.py.
--   Examples/*: the theorems at concrete inputs.
--
-- How code corresponds to definitions. A class is a record of its state, a method a function of its
-- name from a state to a result and the next state (`Exec`); what was written before a raise stays
-- written. A read returns its result alone. Instants are microseconds and durations too; other floats
-- are millionths. Clocks, `uuid4`, `isoformat`, the network, and pydantic's validation are parameters.
-- A store has the failure switch of the in-memory backend. Log texts and exception details are left
-- out, but the audit entry of a backfill is kept. Every loop is structural recursion on the list that it
-- walks or on the attempts that are left, so no fuel is needed.
--
-- The database behind ClickHouse is a table given by its insert and its SELECT ... FINAL. File contents,
-- outputs of commands, `json.loads` and `float` of a text are arguments. Characters are upper and lower
-- case, letters and digits for ASCII alone.
--
-- Not modelled: the list and event queries of storage/clickhouse.py, which are SQL, ASGI and FastAPI
-- plumbing, the other sections of the monitor page, the background loops, the
-- frontend and the deployment. The theorems on whole histories serve requests one
-- after the other; Missions/Interleaving is a step relation in which the handlers of requests interleave at
-- every await, the two awaits of a mission's projection included, and states what survives that.
pub mod Prelude
pub mod Json
pub mod Models
pub mod Config
pub mod Exec
pub mod Storage
pub mod World
pub mod Schemas
pub mod Auth
pub mod Pipeline
pub mod Ingest
pub mod Missions
pub mod Monitor
pub mod Health
pub mod Registry
pub mod Offline
pub mod Seed
pub mod Collectors
pub mod Api
pub mod Middleware
pub mod Spa
pub mod Version
pub mod Examples
