-- ===== src/Lib.antt =====
-- A model of claude_swarm: a supervisor that hands kanban tasks to agents, and what it rests on.
--
-- Parts and files (source paths are from the repository's root):
--   Prelude, Json      shared tests, lists, sorting, results; the values that JSON holds
--   Kanban             claude_swarm/kanban.py: the SQLite board
--     Task, Fields     `TaskStatus`, `Task`, `to_row`, `from_row`; the keyword arguments of `update`
--     Board            `submit`, `update`, `transition`, `add_blocked_by`, `add_blocks`, `timeline`
--     Ready            `list_tasks`, `unblocked`, `claim_one`
--   Messaging          claude_swarm/messaging.py: JSON inboxes, and the bus over them
--     Inbox            `Message`, `Inbox`, `MessageBus`
--   Bus                claude_swarm/bus.py: task delegations over the message bus
--     Participants     the taxonomies, `DelegationStatus`, `validate_send`
--     Delegation       `Delegation`, `to_message`, `from_message`
--     TaskBus          `TaskBus`, which sends over Messaging and mirrors to Kanban
--   Usage              claude_swarm/usage.py: what is left of each billing lane
--     Lane             `Lane`, `LaneState`
--     Tracker          the methods of `UsageTracker` that record
--     Snapshot         `LaneView`, `UsageSnapshot`, `lane_view`, `snapshot`
--     Persist          `to_dict`, `from_dict`, `_load`, `_save`
--   Governor           claude_swarm/governor.py: the mode and the lane to dispatch to
--     Decide           `GovernorConfig`, the state, `record_api_spend`, `decide`
--   Supervisor         claude_swarm/supervisor.py: the loop over the board
--     Step             `step`, `_dispatch_one`, `run`
--     Parallel         `_run_parallel`: its passes and the completions of its futures, in any order
--   Resilience         claude_swarm/resilience.py: calls that are tried again
--     Backoff, Rotator `cache_safe_sleep`, `BackoffPolicy`, `KeyRotator`
--     Retry            `resilient_call`
--     Classify         `classify_error`, `retry_after_from_headers`
--   Perpetual          claude_swarm/perpetual.py: the loops that never return on an empty board
--     Drive            `_drive_claimed_task`
--     Loop             `PerpetualSupervisor`: `tick`, `_resilient_drive`, `_safe_generate`, `run`
--     Team             the loops of `run_perpetual_team` over one kanban, act by act
--     Cached, Pidfile  `build_cached_blocks`; `PidfileGuard`
--     Owner            processes that take and leave the pidfile
--     Status           `status`, here and in claude_swarm/supervisor.py
--   Workflow           claude_swarm/workflow.py: passes of agents over one change
--     Passes, Stub     `Pass`, `PassResult`, `_safe_run`; `StubWorkflowAgent`
--     Runner           `pipeline`, `converge`
--     FanOut           `fan_out`
--   Meta               claude_swarm/meta_supervisor.py: the watch over the supervisors
--     Score, Preflight `parallelism_score`; `cost_preflight`
--     Anomalies        `AnomalyTracker`
--     Monitor          `MetaSupervisorMonitor`
--   Merge              claude_swarm/merge_pipeline.py: the batch that merges pull requests
--     Pipeline         `file_overlap`, `topological_order`, `run_pipeline`
--   Roles              claude_swarm/roles.py: the ladder of roles
--     Ladder           `RoleKind`, `Role`, `can_spawn`, the factories
--   Policy             claude_swarm/routing.py and claude_swarm/cost.py
--     Routing, Cost    `route_task`; `price_call`
--
-- Under each part, the other files hold its lemmas and theorems, and Tests its runs and examples.
--
-- How the parts interact. The supervisor reads and claims on the board; the task bus writes to
-- the board what its reports say, and keeps its messages in the inboxes; the governor reads the
-- usage tracker. A perpetual loop drives the board through `resilient_call`, several loops share
-- one board, and the meta supervisor reads the status documents that the loops write.
--
-- Correspondence. A database is a `Board`: the rows of its two tables, in the order of insertion.
-- Every method is a function from the board (and `time.time()`, as the argument `now`) to the
-- board that it leaves and its result; a raised exception is the value `raises` or `err`, with
-- the state as it was left. A record of the source is a record with its fields. A message bus is
-- the list of the inbox files of one directory; the body of a message has a field for each key
-- that the package reads (a null value counts as a missing key), and the ids that `uuid4` makes
-- are arguments. The supervisor meets a list of moments, each with the abort marker, the times
-- and what the conductor makes of a task; the list's length is `max_iterations`, so a run over it
-- ends. A perpetual loop meets a list of ticks in the same way, and a run that has used them all
-- up goes on. Loops that share a board, and processes that share a pidfile, are sequences of
-- acts, each of them one access of what is shared; the order is any. An agent of a workflow is a
-- function that passes a state on; the threads of `fan_out` complete in an order that is an
-- argument. The attempts of `resilient_call` are counted down from `max_attempts`. Floats are
-- exact numbers: times are whole microseconds, money is in millionths of a dollar, and a fraction
-- is a pair of numbers, compared by cross products. A JSON text in a column is the value that it
-- encodes, or `malformed`. A number is printed with as much fuel as it has units, which is more
-- than it has digits.
--
-- The cycles of `converge` are counted down from `max_cycles`. What `float` and `int` make of a
-- text is an argument where a value of a task's metadata, of a file or of a header may be one.
--
-- Not modelled: failing writes, logging, what ends the loops of `_run_parallel`, subprocesses and
-- git, calls of the Claude API, the texts of the usage headers, the JSON file of the governor,
-- and the modules of the package not named above: SQL for servers that are not in the repository,
-- command lines, prompts.
pub mod Prelude
pub mod Json
pub mod Kanban
pub mod Messaging
pub mod Bus
pub mod Usage
pub mod Governor
pub mod Supervisor
pub mod Resilience
pub mod Merge
pub mod Perpetual
pub mod Workflow
pub mod Meta
pub mod Roles
pub mod Policy
