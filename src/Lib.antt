-- ===== src/Lib.antt =====
-- fleet-api is the server of a fleet of agents, and fleet-agent the sidecar that runs tasks for one of
-- them. A principal dispatches a task through a workflow; the executor's sidecar polls the server for the
-- task, runs it, and posts events; the principal can pause, resume, cancel, retask or redirect it, or add
-- context, meanwhile. The server keeps all state in a database, and a request works in one session.
--
-- The database is the record Db of Store/Commit.antt: agents, workflows, tasks and events, the newest row
-- first. A handler is a function from the clock reading, a fresh identifier, the database and the
-- arguments to an Outcome: the reply or the exception, and the unit of work that it commits. `perform`
-- commits it, with the constraints that tasks/models.py and the migration
-- alembic/versions/001_initial_schema.py declare. Requests are served one after
-- another; Races.antt has two that overlap, where both handlers read the database before either commits.
--
-- Files, and the code that they model:
--   Errors.antt, Settings.antt: src/fleet_api/errors.py, config.py
--   Http.antt: middleware/errors.py, the responses to exceptions
--   Agent.antt, Workflow.antt: agents/models.py, workflows/models.py
--   Task/Status.antt, Task/Row.antt: tasks/state_machine.py, tasks/models.py
--   Store: the tables, the commit, the query for the last event number, and what handlers keep
--   Idempotency.antt, Crud.antt: check_idempotency and create_task of tasks/crud.py
--   Lifecycle: cancel_task, pause_task, resume_task, retask_task, redirect_task and
--     build_lineage_chain of tasks/lifecycle.py, a module each; Lifecycle/Access.antt has the three
--     checks that each operation begins with
--   Context.antt: tasks/context.py
--   Sidecar.antt: tasks/sidecar.py
--   Lawfulness: every handler's unit of work obeys Store/Lawful.antt
--   Api.antt: the requests and the handlers together, as sequences
--   Routes: tasks/routes.py, from the requests to the responses; Routes/Answers.antt puts the handlers,
--     the commit, the bodies and the exception handlers together
--   Links.antt, Responses.antt: tasks/responses.py
--   Races.antt: two requests that overlap, each in its own session (database/connection.py)
--   Registry.antt, Agents: agents/service.py, agents/heartbeat_monitor.py, agents/schemas.py and
--     agents/routes.py
--   Polling.antt, Listing.antt: get_pending_tasks, get_pending_signals, get_task and list_tasks of
--     tasks/crud.py; Paging.antt is the cursor pagination that the two listings share, and
--     Cursors.antt their cursors
--   Workflows.antt, Workflows/Responses.antt: workflows/service.py, workflows/routes.py
--   Auth.antt: middleware/auth.py, DatabaseAgentLookup of agents/service.py, and
--     src/fleet_agent/signing.py
--   EventStream.antt: tasks/sse.py
--   Callbacks.antt: tasks/callbacks.py, and sign_callback of crypto.py
--   Signals.antt: the validation of polled signals in src/fleet_agent/signals.py and models.py
--   Streamer.antt: src/fleet_agent/streamer.py
--   FleetAgent: the rest of the sidecar: State.antt is signal_state.py, Control.antt the handlers of
--     signals.py, Poller.antt is poller.py, Executor.antt is executor.py, Startup.antt
--     is registration.py, Heartbeat.antt is heartbeat.py, Pending.antt is what poller.py reads, and
--     Queued.antt its polls of the server
--   Base, Json: shared helpers; Examples: concrete requests and rows.
--
-- Parameters stand for what is not in the repository (Externals of Api.antt): the digest of an input,
-- the JSON Schema validator, Python's int on other JSON values, and what the ORM writes when a loaded
-- dictionary is changed in place; FuncCase of Polling.antt is SQLAlchemy's func.case. Times are microseconds since an epoch, and a request reads the clock
-- once, although the code may read it again for an event or a time of completion. Row order stands for
-- the order of insertion.
--
-- The interface Codec of Cursors.antt stands for json, base64 and the parsing of times, and Crypto of
-- Auth.antt for Ed25519, SHA-256, base64 and times; the records IsCodec and IsCrypto state what their
-- documentation promises. The databases' order of texts is the parameter `collates`. What HTTP servers
-- and the operating system answer are arguments: the responses to attempts, the lines of a process, the
-- databases that successive polls find.
--
-- The sidecar's tasks on its event loop are a relation of steps (FleetAgent/Coherent.antt), each of them
-- the code between two awaits, in any order. The executor's turns carry the shared state as it finds it.
--
-- The loop of build_lineage_chain has its own bound, lineage_depth rounds; the retries of a post are five
-- rounds, those of a callback four, those of a registration ten; a client of a listing is given more calls than
-- there are tasks. The stream of events and an execution go through the list of what they are given.
--
-- Not modelled: the pydantic schemas of the bodies other than a registration's and a polled task's, which
-- are the types of the arguments; the wording of errors, a parameter of Routes/Answers.antt; application
-- wiring, health checks, the manifest, the command line, and of the migrations all but the constraints.
pub mod Base
pub mod Json
pub mod Errors
pub mod Http
pub mod Agent
pub mod Workflow
pub mod Task
pub mod Settings
pub mod Store
pub mod Idempotency
pub mod Crud
pub mod Lifecycle
pub mod Context
pub mod Sidecar
pub mod Lawfulness
pub mod Api
pub mod Links
pub mod Registry
pub mod Polling
pub mod Signals
pub mod Paging
pub mod Cursors
pub mod Listing
pub mod Workflows
pub mod Auth
pub mod FleetAgent
pub mod EventStream
pub mod Callbacks
pub mod Responses
pub mod Routes
pub mod Agents
pub mod Races
pub mod Examples
pub mod Streamer
