-- ===== src/Lib.antt =====
-- Verification of the Cloud Agent Platform: tasks are queued, leased by workers, run by an agent loop
-- that calls a model and tools, and recovered when a worker is lost.
--
-- The parts, the files here that model them, and the code in the repository:
-- * Domain (app/domain/task.py): tasks, requests and results.
-- * StateMachine (app/orchestration/task_state_machine.py): the moves between the statuses of a task,
--   as the function `transition` and, in StateMachine/Graph, as a step relation.
-- * TaskStore (app/storage/task_store.py): the dict of tasks that all other parts share.
-- * Lease (app/orchestration/execution_lease.py): leases of tasks. Its state `System` is the store
--   with the leases, since `acquire` writes both.
-- * Scheduler (app/orchestration/task_scheduler.py): which queued task is next, under two limits.
-- * Recovery (app/orchestration/recovery_service.py): what becomes of tasks that nobody updates.
-- * Worker (app/orchestration/task_worker.py, models.py): a round of next_task, acquire, run, release.
-- * Llm, Tools (app/llm/models.py, app/tools/models.py): what goes to and comes from models and tools.
-- * Registry, Validator, Policy, Executors (app/tools): how a call of a tool is looked up, checked,
--   permitted and run.
-- * FileTools, CommandTools (app/tools/native): the tools that read, write and search files and
--   artifacts, over any file system, and those that run commands in the sandbox.
-- * AgentLoop (app/orchestration/agent_loop.py): the conversation of a model with its tools.
-- * Profile, Runners (app/orchestration/task_classifier.py, execution_modes.py, phase_router.py,
--   execution_router.py, runners): in which mode and phases a task is run.
-- * Blackboard, Coordinator (app/orchestration/multi_agent): agents with roles that share a board.
-- * Failures, ReviewerDebug (app/orchestration/failures, reviewer_debug): counting of failures, and
--   the grants that repeated ones give.
-- * Context (app/context): lanes of notes, compacted when they grow.
-- * Verifier (app/verification): whether the outcome of a run passes.
-- * World, Orchestrator (app/orchestration/task_orchestrator.py): what becomes of a leased task, from its
--   workspace to its result. World is the store with the leases and all that is outside;
--   Orchestrator/Request, Metadata, TaskSandbox, Steps and Run are the code, the other children its
--   proofs.
-- * SandboxService (app/sandbox/service.py, healthcheck.py): the interface of the providers, waiting for
--   a sandbox and checking it.
-- * Workspace (app/workspace/workspace_manager.py): the directories of a task.
-- * Sandbox (app/sandbox/models.py, policy.py): what a sandbox and its commands may be.
-- * Prelude, Text, Value: dicts in insertion order, stable sorting, exceptions as values, texts, JSON.
-- A worker takes a task from the scheduler and its lease from the lease manager; both read and write
-- the store through the state machine. The orchestrator makes the workspace, starts a sandbox if one is
-- asked for, runs one of the runners, each a use of the agent loop, whose tool calls go through the
-- executors, has the verifier judge the outcome, and writes the result to the store.
--
-- How the code is read. A method that mutates its object is a function from the state to its result
-- and the new state (`Exec`); a raise is an error value beside the state as it was at the raise. A
-- method holds its lock without waiting for anything else, so each is one step, and interleavings
-- are sequences of steps. A `datetime` is a number of microseconds, and an operation reads the
-- clock once; clock readings and fresh ids are arguments. A `Path` is its text, and what pathlib
-- does is a parameter (the policy also has what `resolve` raises); so are `lower`, `strip` and `repr`
-- of a text, the fingerprint of a failure, providers, tools and runners. While the orchestrator waits
-- for one of them, the rest of the program goes on: each is an action on the whole world, the store included. A dict is an association list
-- whose keys stand once. Numbers that the code never makes negative are natural numbers;
-- priorities, and the limits of the scheduler and of the sandbox, are integers.
--
-- The loops over lists are recursion on the list. The loop of the agent over its turns is recursion on
-- the turns that are left, which is what its `range` gives, so no fuel is needed. `run_until_idle`
-- makes as many rounds as `max_tasks`. The loop of `wait_until_ready` is bounded by the clock, so it is
-- recursion on a number of rounds: more than the timeout divided by the poll interval are enough.
--
-- Not modelled: the sandboxes themselves, git, the providers of models and the HTTP interface, which are
-- input and output for the most part; the ranking of recalled context; the endless loops of the worker,
-- which repeat what is modelled; the limits of a task request, which no code reads; and cancellation: an
-- exception here is one that `except Exception` catches, and a run, a tool or a call that is cancelled
-- is outside the model. The policy has the exceptions of `Path.resolve`; the other parts resolve a path
-- as where it returns.
pub mod Prelude
pub mod Value
pub mod Domain
pub mod StateMachine
pub mod TaskStore
pub mod Lease
pub mod Text
pub mod Scheduler
pub mod Recovery
pub mod Llm
pub mod Tools
pub mod AgentLoop
pub mod Registry
pub mod Policy
pub mod Validator
pub mod Executors
pub mod Profile
pub mod Runners
pub mod Blackboard
pub mod Coordinator
pub mod Failures
pub mod ReviewerDebug
pub mod Worker
pub mod Context
pub mod Verifier
pub mod Sandbox
pub mod SandboxService
pub mod World
pub mod Workspace
pub mod Orchestrator
pub mod CommandTools
pub mod FileTools
