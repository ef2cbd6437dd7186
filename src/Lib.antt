-- ===== src/Lib.antt =====
-- Cascade is a workflow engine: a definition is a graph of steps, a run is an append-only log of
-- events, and stateless workers claim tasks from a table, replay the log, execute a step and append
-- the result. This library models the parts of it that decide what happens: the fold of the log, the
-- questions asked of its result, the task queue with its leases, and the service that ties them.
--
-- Json          JSON values, as Python holds them.
-- Spec          engine/spec.py: the definition of a workflow as the engine reads it once it is valid.
--               Spec/Validate has the checks of `validate_spec` on JSON, Spec/Cycle `detect_cycle` and
--               `validate_spec` itself, Spec/Order `topological_order`, Spec/Read how the engine takes
--               the typed form out of JSON.
--               Spec/Cycle/Walks, Found, Ends, Places, Acyclic, Reports and Decides are about the search
--               for cycles, Order/Follows with Round, Release and Needs about the order, Order/Sorts
--               with Starts, Open, Drains, Complete and Loops about when there is one, StepRead,
--               Needed and Valid about the typed form of what the checks pass.
-- Retry         engine/retry.py: attempts and delays. Retry/Bounds: the delays' bounds.
-- Replay        engine/replay.py. Replay/State has the statuses, the events and the context,
--               Replay/Fold `apply_event` and `replay`, Replay/Queries `ready_steps`,
--               `compensation_order`, `next_run_state` and the other questions. Replay/Order,
--               Slots, Invariant, Readiness, Progress, Compensation and Status prove
--               what they are named for.
-- Queue         engine/models.py (Task) and the queries of engine/service.py on the task table:
--               `enqueue_step`, `claim_task`, `renew_lease`, `finish_task`, `finish_task_if_owned`,
--               `next_attempt` and the reaper's save. Queue/Heartbeat is `_loop` of
--               engine/heartbeat.py. Queue/Steps has the interleavings of the queries;
--               Queue/Rows, Invariant, Enqueued, Requeued, Claims, Fencing and Keys are about one
--               query each, or what they share.
-- Service       engine/service.py: Service/Exec is code that writes and may raise, with
--               `transaction.atomic()` as a rollback; Service/Store the rows of runs and the
--               primitive reads and writes; Service/Log `append_event`; Service/Runs scheduling,
--               compensation, projection and `advance_run`; Service/Approval `resolve_approval`;
--               Service/Reaper `schedule_retry`, `start_run` and `reap_expired_leases`;
--               Service/Calls the sequences of calls. Kept, with Kept/Requests, lifts what the writes
--               to the store keep to all that is composed of them. Gapless and Logged are about the
--               logs, Transacts and Recovers about the task table, Stored about both, Projection
--               about the row of a run, Scheduled about what `advance_run` queues, with Returns and
--               Live for code that returns, Onward about runs of valid definitions, Begun
--               about `start_run`, SameQueue, Sweep and Stuck about the reaper.
--               Service/Definitions has `create_definition`.
-- Plugins       engine/steps: the registered step types, `should_defer` and `execute`. Plugins/Acts has
--               what the shell and http plugins ask of the libraries, Shell and Http their `execute`,
--               Validate `validate`; Executed is both under the worker. ShellRun, HttpAnswered and
--               Captured are about their results, Registry about the names, Parking about waits.
-- Worker        engine/worker.py: recording a result, deferral, compensation. Worker/Visit has
--               `execute_task` and `run_once`. Kept is about what a round keeps, with Logged for the
--               logs and the task table, Fencing about a worker that has lost its lease.
-- Predicates    graph/predicates.py: `validate_predicate` and `matches`; Predicates/Values has
--               Python's `==`, `in` and `<` on JSON values.
-- Expressions   engine/expressions.py: `lookup`, `render` and `referenced_steps`; Expressions/Paths has
--               the two regular expressions as scanners. Expressions/Local: what `render` reads.
-- Graph         graph/service.py and the tables of graph/models.py: `upsert_entity`, `link`, `related`
--               and the outbox; Graph/Diff has `_diff` and the merge of attributes. Graph/History and
--               Mutations are about the outbox as the record of the entities, Proper and Resync about
--               a write that is repeated.
-- Dispatch      graph/dispatcher.py. Dispatch/Next is about the query for the next change, Drained
--               about the rounds, Logged about what they keep, Blocked about a template that raises.
-- Stream        engine/streaming.py: the frames of a stream. Stream/Above and Complete: its events.
-- Tenancy       core/tenancy.py and core/middleware.py. Tenancy/Isolation: what a request reads.
-- Cluster       fake_nodes/server.py: the servers that the demo acts on. Cluster/Requests has `do_GET`
--               and `do_POST`, Cluster/Systems `_company`; Redelivered and Undone are about repeated
--               and inverse deliveries.
-- Api           engine/views.py, graph/views.py and their serializers: Api/Workflows, Runs, Entities and
--               Triggers have the handlers. Newest, Refused and Hidden are about what a posted
--               workflow, a refused decision and a request of another tenant come to.
-- Commands      the loops of run_worker, run_reaper and run_dispatcher (management/commands of engine and
--               graph), and the whole deployment as a sequence of acts: Commands/Health is about what
--               all of them keep, with Served and Written for the requests to the runs and the others,
--               Drained about the end of `run_worker --once`.
-- Seeds         the seed_* commands (management/commands of engine, graph and core): Demo, Patience,
--               Upgrade, Employees, Joiner and Acme have their data, Store and Handle what they store.
--               Again is about a second seeding.
-- The parts interact as the code does: the service keeps the runs and the queue in one store, reads a
-- run by replaying its events, asks Replay what is ready or left to roll back, and enqueues tasks; a
-- worker changes the queue by `claim_task`, `renew_lease` and `finish_task_if_owned`. The dispatcher
-- takes the oldest change from the outbox of the graph, asks Predicates which triggers it matches,
-- renders their templates by Expressions, and starts runs in the store of the service, all in one
-- transaction. The stream reads the log that the service writes. The API calls the service and the
-- graph, for the tenant that Tenancy finds, and reads a stored spec by Spec/Read.
--
-- Correspondence. A Python dict is an association list in insertion order, a JSON payload a record of
-- the keys that the code reads, a `models.TextChoices` a data type, a row a record. Times are
-- natural numbers of microseconds. Primary keys of tasks are numbers, which stand for the UUIDs.
-- What the code takes from outside is a parameter: the digest of sha256, the random draw, the rows
-- that other transactions have locked, the clock, the settings, Python's `str`, the UUIDs of the runs
-- that triggers start, what `shlex`, `subprocess` and `requests` do, and what happens to the database while a
-- step runs.
--
-- Bounds and fuel. `append_event` has the eight rounds of the source; on a gapless log one is enough.
-- `reap_expired_leases` is `while True` in the source and takes its number of rounds as fuel here: each
-- round that recovers a task leaves one expired row less, so one round more than there are expired
-- rows is enough. `dispatch_pending` takes its limit, or fuel where the source has none: each round
-- that dispatches a change leaves one unprocessed row less. `detect_cycle` has twice as many rounds
-- from each root as there are steps, and two more: each round colours a WHITE id GREY or takes one from
-- the stack. `topological_order` has one round for each id: each puts another id in order. The loop
-- of a stream goes over what its rounds read, a list. Attempts, seqs and versions
-- are natural numbers without an upper bound, where the database stops at 2 ^ 31 - 1.
--
-- Step ids and names of workers have at most 200 characters in the columns of the database; a longer
-- one is a DataError. The other texts are not bounded.
--
-- Not modelled: a list of pairs posted as attributes, which `dict` takes (the type of what is posted
-- has no such value), the texts that `int` takes in a retry block, what Django REST framework makes of
-- a request's body, Django's admin pages and migrations, the parsing of timestamps, the scripts of the
-- demonstrations, and the encoding of streamed frames. The worker takes the rendering of a step's config as a parameter; the dispatcher uses Expressions.
-- Transactions on the graph are taken one after the other: two first writes of one entity at the same
-- time, one of which the unique key refuses, are outside the model.
pub mod Prelude
pub mod Json
pub mod Spec
pub mod Retry
pub mod Replay
pub mod Queue
pub mod Service
pub mod Plugins
pub mod Worker
pub mod Api
pub mod Cluster
pub mod Commands
pub mod Dispatch
pub mod Expressions
pub mod Graph
pub mod Predicates
pub mod Seeds
pub mod Stream
pub mod Tenancy
