-- ===== src/Lib.antt =====
-- The orchestration core of AOF: workflow DAGs, the life of a task, the plans of the scheduler and the
-- messages of agents.
--
-- A task is a file that the store keeps by its identifier, with a status, a lease of the agent that
-- works on it, dependencies on other tasks, and counters of failed dispatches. A task can carry a
-- workflow: hops that depend on each other. When an agent finishes a hop, `evaluateDAG` computes the
-- next state of the workflow, the change log, the hops that can be dispatched and the status that the
-- task should get.
--
-- The parts, and the files that model them:
--
-- - `Json`: the JSON values that conditions read, `===`, `includes` and `getField` of
--   src/dispatch/dag-condition-evaluator.ts. A number is a whole multiple of a fixed unit. A text
--   that names a position of an array is read as one, as are "length" and the keys of an object.
-- - `Workflow`: src/schemas/workflow-dag.ts. `Workflow/Schema` has the types, `Workflow/Initial`
--   `initializeWorkflowState`, `Workflow/Complexity` `measureConditionComplexity` and
--   `collectHopReferences`, `Workflow/Validate` `validateDAG`. `Workflow/Acyclic` follows its search for
--   a cycle: the counts of edges, a round, the order of the processed hops, the graph that is built.
-- - `Dag`: src/dispatch/dag-evaluator.ts and src/dispatch/dag-condition-evaluator.ts. Their functions
--   are in `Dag/Condition`, `Dag/Cascade`, `Dag/Conditions`, `Dag/Ready`, `Dag/Completion`,
--   `Dag/Rejection` and `Dag/Evaluate`, under the names of the source. A `Work` is the working copy of
--   the hop states with the change log so far. A `TypeError` is the result `type_error`.
-- - `Dag/Log` reads the change log as a history of statuses. `Dag/Run` presents an evaluation as a
--   sequence of steps that write the working copy.
--   `Dag/Normal` is about completions, failures and skips, `Dag/Rejected` about rejections,
--   `Dag/Verdict` about the final statuses, `Dag/Blocked` about a join that can never be decided.
-- - `Tasks`: src/schemas/task.ts, src/store and src/dispatch/failure-tracker.ts. A store is a map from
--   identifiers to tasks; an operation takes the time and a store, and gives an answer or an error
--   and the store that it leaves. `Tasks/Store` has `transitionTask`, `Tasks/Lifecycle` block, unblock
--   and cancel, `Tasks/Lease` the leases, `Tasks/Failures` the failure budget, `Tasks/Dependencies`
--   the dependency graph. An `Operation` of `Tasks/Calls` is a
--   call of one of these or of `updateTask`, without the periodic `expireLeases`; a sequence of them runs on a store.
--   `Tasks/Update` has `updateTask`, `Tasks/Cascade` src/dispatch/dep-cascader.ts, on the list of all tasks,
--   and `Tasks/Promotion` src/dispatch/promotion.ts.
-- - `Subscriptions`: src/schemas/subscription.ts, src/store/subscription-store.ts and
--   src/dispatch/callback-delivery.ts. `Subscriptions/Store` has the operations on the list that a task's
--   file holds, `Subscriptions/Delivery` the delivery of one callback, `Subscriptions/Rounds` the rounds
--   that a transition and a poll start. A step gives an answer, or an exception, and the list that it
--   leaves. What the gateway answers is an argument, and so are the events of the log.
--   `Subscriptions/Steps` shows what the steps keep, `Subscriptions/Tried` what a try does. An `Operation` of
--   `Subscriptions/Calls` is a round, or a call of `create`, `cancel`, `markStatusNotified` or `appendAttempt`; a
--   bare `update`, with which the chat delivery closes a subscription, is none of them.
-- - `Escalation`: src/dispatch/duration-parser.ts, src/dispatch/escalation.ts and `dispatchDAGHop` of
--   src/dispatch/dag-transition-handler.ts, on a task with its workflow. The executor is an argument; an
--   exception is the answer `none`, with the task that it leaves.
-- - `Handler`: `handleDAGHopCompletion` of src/dispatch/dag-transition-handler.ts, which makes an event of
--   a run's result, evaluates the workflow by `Dag` and keeps the new state. `Handler/Poll` has the dispatch
--   of ready hops in src/dispatch/scheduler.ts.
-- - `Throttle`: src/dispatch/throttle.ts, with the module's state passed along.
-- - `Scheduler`: src/dispatch/scheduler-helpers.ts, src/dispatch/task-dispatcher.ts and the planning of a poll in
--   src/dispatch/scheduler.ts. `Scheduler` has the counts and the maps of a listing, the expired leases and the
--   promotions; `Scheduler/Limits` what a poll knows, and the limits of the throttle; `Scheduler/Dispatch`
--   `buildDispatchActions`; `Scheduler/Recovery` the blocked tasks; `Scheduler/Circular` the search for circular
--   dependencies; `Scheduler/Poll` the actions of a poll in their order. The stale heartbeats, the violations of
--   an SLA, the timeouts of hops and the teams of the org chart are arguments; a random number is a fraction.
-- - `Protocol`: src/protocol/router.ts, src/protocol/router-helpers.ts, src/protocol/completion-utils.ts,
--   src/protocol/formatters.ts and src/protocol/task-lock.ts. `Protocol` has the outcome of a completion and the
--   authorization of a sender, `Protocol/Formatters` the work log, `Protocol/Router` the handlers and `route`.
--   `Protocol/Lock` presents the chain of promises of each task as events, in any order.
-- - `Prelude`: maps as association lists in insertion order, tests, lists.
--
-- The clock is an argument, and stands still during one operation. The conversion of a text, an array
-- or an object to a number is an argument too, with nothing assumed of it.
--
-- Fuel: the cascade of skips takes one more than the number of hops in the state, which suffices as
-- each recursive call has a pending hop less. The search for a cycle takes two more than the number of
-- tasks, which suffices as each recursive call has visited one more. In `validateDAG`, the search for a
-- cycle takes one more than the number of hops, as no hop is processed twice, and the search from the
-- roots one more than the roots and the edges, as each hop pushes its edges once. The search for circular
-- dependencies takes two more than the number of tasks, as each recursive call has visited one more.
--
-- Not modelled: files, logs and hooks; the execution of the actions that a poll plans, the dispatch of
-- agents, the texts of prompts, the end of a session, the parsing of messages, the files of results and
-- handoffs, memory and search, the command line and the servers, as they read and write files, call other
-- programs, or are left for later.
pub mod Prelude
pub mod Json
pub mod Workflow
pub mod Dag
pub mod Tasks
pub mod Throttle
pub mod Subscriptions
pub mod Escalation
pub mod Handler
pub mod Scheduler
pub mod Protocol
