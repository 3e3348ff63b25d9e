-- ===== src/Lib.antt =====
-- Virtual Office: tasks and the workflow engine, the graph of departments, benches and contests,
-- the job queue, the priorities of the scheduler and the circuit breaker.
--
-- An office is departments of agents. Work is a task (packages/core/src/task/task.ts): a record
-- with a status, a holder, reviewers, approvals and a history. The engine
-- (packages/orchestrator/src/workflow/workflow-engine.ts) takes a task, an event and a context, and
-- returns a task and effects, or validation errors; it calls a handler per review policy, which move
-- the task by transitionTask, and at the end adds what the move raises in other departments. The arrows
-- between departments that it follows are those that createConnection lets an office draw. Work
-- that arrives for a bench goes to one of its members, or to all of them as a contest. The scheduler
-- packs the priorities of a task into one number and puts a job in the queue, from which workers
-- claim it; a provider that fails is left alone by the circuit breaker.
--
-- Prelude: shared tests, lists, texts (UTF-16 code units), the stable sort, and Map with text keys.
-- Core/Result, Core/Gates: packages/core/src/shared, Result with errors as data, gated actions.
-- Core/Unknown: values that the source types unknown, as request bodies and rules hold.
-- Core/Policy: packages/core/src/department/review-policy.ts, the declared policy of a department.
-- Core/Connection: packages/core/src/connection/connection.ts, arrows and the parsers of their rules.
-- Task/Status, Task/Model, Task/Machine: the statuses, the table TASK_TRANSITIONS (task_transitions),
--   the data, and transitionTask (transition_task). Machine/History is the invariant of a task,
--   Machine/Counts openTaskCounts.
-- Task/Validate, Task/Create: the checks of task.ts, createTask (create_task), updateTask (update_task).
-- Workflow/Types: workflow-types.ts, check-runner.ts and the data of escalation.ts.
-- Workflow/Acceptance, Checker, Peers, Review: acceptance.ts, checker.ts, rankPeers of peer-policy.ts,
--   and review-common.ts, one function per function.
-- Workflow/Escalation: packages/orchestrator/src/escalation/escalation.ts.
-- Workflow/Raised: handoff.ts and watch.ts.
-- Workflow/Policy/*: the handler of each policy, handle_direct for DIRECT_POLICY_HANDLER and so on.
-- Workflow/Engine: the class WorkflowEngine, handle for its method, default_handlers for
--   defaultWorkflowEngine.
-- Workflow/Soundness, Workflow/Outcomes: theorems on all events, and on particular ones.
-- Workflow/Waiting: packages/orchestrator/src/workflow/awaiting.ts, whatIsWaiting (what_is_waiting).
-- Graph: the drawing of connection.ts: hasPath (Search), createConnection, updateConnection and
--   validateConnectionGraph (Draw). Paths, Acyclic and Checked are theorems on them.
-- Queue: packages/orchestrator/src/queue, the class InProcessJobQueue: its state (Types) and methods
--   (Ops, Stats), which return the new state beside what the source returns. Steps is a run of calls in any
--   order; Chosen, Counted, Startable, Claimed, Limits, Kept, Accounts, Once and Again are theorems on
--   calls and on runs.
-- Schedule/Priority: packages/orchestrator/src/schedule/priority.ts, orderingKey (ordering_key).
-- Routing/Breaker: packages/llm/src/routing/circuit-breaker.ts; Trials and Burst are theorems.
-- Benches: packages/core/src/department/bench.ts: nextFromBench and placeOnBench (Turn), the checks
--   (Shape). Rotation and Valid are theorems.
-- Policies: the parsing of packages/core/src/department/review-policy.ts: parseStages (Stages) and
--   parseReviewPolicy (Parse). Valid, Gathered, Accepted and
--   Roundtrip are theorems.
-- Contests: packages/core/src/task/contest.ts; Verdict and Entries are theorems.
-- Examples: tests and the theorems applied.
--
-- How the source is read. A value typed T | null or T? is an Option; an id is a text; a Date is its
-- milliseconds, and an invalid one a value of its own where a caller gives it. Numbers are natural:
-- the subtractions of the source are of lengths in the order that keeps them so, or are moved across
-- the comparison. The source never mutates a task, and nor does the model: records are updated. An
-- early return of an error is the bind of Result. TaskDeps, whose two calls give an id and the time,
-- is the record of what they return.
--
-- Loops run over lists, except three. The two of resolveEscalationTarget run on the hops left: the
-- source counts to the same bound, max_escalation_hops, so no run is cut short. The loop of hasPath
-- runs on fuel, search_fuel, which is a round for each edge of the kind and two more: a round either
-- drops a department that was seen or uses up the edges out of a new one.
--
-- The methods of a class take its fields as a record or a map and return them changed; what the
-- clock and the source of ids return in a call is an argument, so that a theorem on all runs speaks
-- of every clock and every interleaving of the calls. The comparison localeCompare, which the runtime
-- gives, is a parameter of Benches/Turn, and nothing is asked of it.
--
-- Not modelled: storage, HTTP, the LLM clients and the web client, which are input and output; runs,
-- the cron fields and the tick of the scheduler, the creation of departments and employees and the
-- parsing of office files. The engine's constructor throws on a
-- second handler of one kind: new_engine is none there.
pub mod Prelude
pub mod Core
pub mod Task
pub mod Workflow
pub mod Graph
pub mod Queue
pub mod Schedule
pub mod Routing
pub mod Benches
pub mod Contests
pub mod Policies
pub mod Examples
