-- ===== src/Lib.antt =====
-- delta-agents: a model of the governed agent engine of packages/delta/src, with the theorems that
-- make it correct.
--
-- The program runs agents as tasks. A task has a snapshot, the state of which every decision is a
-- function. An action runs only through the execution gateway, which checks its schema, its legality in
-- the snapshot and its approval, charges its cost, and updates trust and risk. After a successful step
-- oversight may escalate, which pauses the task. A workflow is a list of phases, a phase is a list of
-- actions and branches; a failed phase is handed to its supervision policy, and a blocked one is
-- resumed from its checkpoint. Child tasks take slots of a task tree.
--
-- Files, and the code that each models (paths below packages/delta/src):
--   Cost         shared/cost.ts: costs over several axes, and budgets
--   Types, Host  shared/types.ts and authoring/types.ts: the shared data, and what the developer supplies
--   Scores       the numbers between 0 and 1, an interface; Scores/Fixed is an instance
--   Governance   governance: trust, risk, surprise, friction, the health estimate, the signals of a step
--   State        state-space: the snapshot, legality, discovery, transitions
--   Store        ports/in-memory-store.ts; Store/Mailbox the messages, Store/Queries the queries, memories,
--                commits and queues; Store/Abort is supervision/abort.ts
--   Supervision  supervision: slots, strategies, the scope of a subtask
--   Oversight    oversight: escalation, advice, the governance after a step; Oversight/Approvals the life
--                of an approval request
--   LoopDetector engine/loop-detector.ts, against the history of a run
--   Scheduler    engine/scheduler.ts: Scheduler/Runner the data, Scheduler/Run how a runner starts and
--                settles, Scheduler/Loop the round-robin loop, Scheduler/Driver the whole run and the
--                result of the subtree; Scheduler itself is the account of the reserved budgets
--   Lifecycle    engine/runtime-lifecycle.ts: pause, resume and inspect
--   Cache        shared/cache.ts; its cap in Cache/Bounds
--   Registry     authoring/registry.ts, with the result of a history in Registry/History
--   Cleanup      engine/cleanup.ts: the retention of tasks and messages, in Cleanup/Retention
--   Horizon      governance/value.ts: the projection of a horizon up to what is not known yet
--   Execution    execution: hooks and the gateway
--   Skills       skills/resolve-skills.ts
--   Workflow     workflow: routing (Workflow itself, resolve-next.ts), the ends of a phase and the phase
--                (Workflow/PhaseEnd, Workflow/RunPhase, run-phase.ts), supervision and the workflow
--                (Workflow/RunWorkflow, run-workflow.ts), and infra/retry-with-jitter.ts (Workflow/Retry)
--   Common       the names and lemmas that the modules share; Tests, Execution/Examples and
--                Workflow/Examples hold the theorems at concrete inputs
--
-- Correspondence. A TypeScript function is a function of the same name in snake case; an object that a
-- function changes (the store, the world outside) is an argument and a part of the result; a promise is
-- the value that it resolves to, and the engine's awaits are in the order of the code. `Result` of
-- slang-ts is `Result`, a missing field is `none`, a Map is an association list. The texts of reasons
-- are constructors that hold what the texts interpolate.
--
-- Numbers. Tokens, times and counts are natural numbers without a bound. Trust, risk and health are
-- floating-point numbers in the program: the model takes any numbers with the operations of `Scores`,
-- and the theorems on them assume the order laws of `ScoreLaws`, which rounding keeps.
--
-- Bounds and fuel. A phase has the program's own limit of 100 steps as its fuel, at which the phase
-- fails as the program's does. The fuel of the scheduler counts passes of its loop, which the program
-- does not bound: Scheduler/Loop/Ends says when it is enough. A retry recurses on the attempts that are
-- left. All else is by structural recursion.
--
-- Not modelled: stepTask of engine/scheduler.ts, the one step of the reasoner, is a parameter of the
-- scheduler (Runtime); so is its lookup of an agent. The facade of the engine, authoring checks,
-- communication and memory retrieval, the ports to databases and to model services, logging,
-- diagnostics and files are left out. Functions of the developer, the clock, ids, skill files and the
-- wait between attempts are parameters (Host). A function of the developer (an action, a hook) may
-- change the messages, the memories and the approval requests of the store in any way (Outside, Desk of
-- Store): that covers what ctx.communicate and ctx.remember write and ctx.recall reads, and nothing
-- else of the store is within its reach. The guard of a branch is taken to be a test that changes nothing.
mod Common
pub mod Cost
pub mod Types
pub mod Scores
pub mod Governance
pub mod State
pub mod Store
pub mod Host
pub mod Oversight
pub mod Execution
pub mod Skills
pub mod Supervision
pub mod LoopDetector
pub mod Scheduler
pub mod Lifecycle
pub mod Cache
pub mod Cleanup
pub mod Registry
pub mod Horizon
pub mod Workflow
mod Tests
