-- ===== src/Scheduler/Driver.antt =====
-- packages/delta/src/engine/scheduler.ts, `runScheduler`: the whole run, from the children that are taken up
-- again to the result of the subtree.
pub mod Outcome
use delta_agents.Common.{
  ℕ, String, Bool, true, false, Option, none, some, List, [], ◌∷◌, ◌==◌, Result, ok, err, get_elem?,
  or_else, if◌then◌else◌,
}
use Prim.Native.String as Texts
use delta_agents.Scores.{Scores}
use delta_agents.Types.{ExecutionStatus, TaskTree}
use delta_agents.State.{Task}
use delta_agents.Store.{get_task, get_task_tree}
use delta_agents.Host.{Host}
use delta_agents.Execution.{Engine}
use delta_agents.LoopDetector.{LoopDetector}
use delta_agents.Scheduler.Runner.{
  SendStatus, no_result, no_reason, child_failed, child_blocked, SendResult, Runner,
}
use delta_agents.Scheduler.Run.{
  Runtime, Run, find_runner, the_store, set_status, start_runner, is_completed,
}
use delta_agents.Scheduler.Loop.{loop}

is_terminal : ExecutionStatus → Bool
is_terminal ExecutionStatus.completed = true
is_terminal ExecutionStatus.failed = true
is_terminal ExecutionStatus.aborted = true
is_terminal _ = false

unfoldable pub is_failed : SendStatus → Bool
is_failed SendStatus.failed = true
is_failed _ = false

unfoldable pub is_blocked : SendStatus → Bool
is_blocked SendStatus.blocked = true
is_blocked _ = false

unfoldable pub pick :
    {S : Type 0}
    → (SendStatus → Bool)
    → Bool
    → Option (SendResult S)
    → Option (SendResult S)
    → Option (SendResult S)
pick test true result later = later
pick test false none later = later
pick test false (some x) later = if test x.status then some x else later

module _ {S A : Type 0} where
  -- the first result of a child with the status; results of the root's task are passed over
  unfoldable pub child_result :
      (SendStatus → Bool) → String → List (Runner S A) → Option (SendResult S)
  unfolding pick
  child_result test root_id [] = none
  child_result test root_id (r ∷ rs) =
      pick test (r.task.id == root_id) r.result (child_result test root_id rs)

  unfoldable pub result_of : Option (Runner S A) → SendResult S → SendResult S
  result_of none start = start
  result_of (some r) start = or_else r.result (record start { snapshot = r.snapshot })

module _ {F : Scores} {H : Host} {R : Runtime F H} where
  open F use {S}
  open H use {now, fresh_id}
  open R use {Agent, name_of, get_agent, max_steps, step_task}

  rehydrate_child : Result String (Task S) → String → Run F H R → Run F H R
  unfolding is_terminal
  rehydrate_child (err e) id run = run
  rehydrate_child (ok child) id run =
      if is_terminal child.status
      then run
      else elim (get_agent child.assigned_agent) [ none ↦ run | some agent ↦ start_runner id run ]

  unfoldable pub rehydrate_all : List String → Run F H R → Run F H R
  unfolding rehydrate_child
  rehydrate_all [] run = run
  rehydrate_all (id ∷ ids) run = elim (find_runner id run.runners) [
    | some i ↦ rehydrate_all ids run
    | none ↦ rehydrate_all ids (rehydrate_child (get_task id (the_store run)) id run)
  ]

  -- the children that ran when the root was paused
  unfoldable pub rehydrate : Result String TaskTree → Run F H R → Run F H R
  rehydrate (err e) run = run
  rehydrate (ok tree) run =
      rehydrate_all tree.active_children (record run { tree_initialized = true })

  unfoldable pub blocked_children :
      Option (SendResult S) → SendResult S → Run F H R → SendResult S × Run F H R
  blocked_children none root run = (root, run)
  blocked_children (some child) root run = (
    record root {
      status = SendStatus.blocked;
      reason = some (child_blocked child.task_id (or_else child.reason no_reason));
    },
    set_status run.root_id ExecutionStatus.paused run,
  )

  unfoldable pub failed_children :
      Option (SendResult S) → SendResult S → Run F H R → SendResult S × Run F H R
  unfolding blocked_children is_blocked
  failed_children none root run =
      blocked_children (child_result is_blocked run.root_id run.runners) root run
  failed_children (some child) root run = (
    record root {
      status = SendStatus.failed;
      reason = some (child_failed child.task_id (or_else child.reason no_reason));
    },
    set_status run.root_id ExecutionStatus.failed run,
  )

  -- by whether the root itself is completed
  unfoldable pub judged : Bool → SendResult S → Run F H R → SendResult S × Run F H R
  unfolding failed_children is_failed
  judged true root run = failed_children (child_result is_failed run.root_id run.runners) root run
  judged false root run = (root, run)

  -- the result of the subtree
  unfoldable pub aggregate : SendResult S → Run F H R → SendResult S × Run F H R
  unfolding judged
  aggregate root run = judged (is_completed root.status) root run

  -- the runner of the root is the first of the list
  unfoldable pub root_result : Runner S Agent → Run F H R → SendResult S
  unfolding result_of
  root_result root run = result_of (get_elem? run.runners 0) (record {
    task_id = root.task.id;
    status = SendStatus.failed;
    snapshot = root.snapshot;
    reason = some no_result;
  })

module _ {F : Scores} {H : Host} (R : Runtime F H) where
  open F use {S}
  open R use {Agent}

  unfoldable pub start_run : Runner S Agent → LoopDetector → Engine F H → Run F H R
  start_run root detector e =
      let run : Run F H R = record {
        root_id = root.task.root_id;
        runners = root ∷ [];
        tree_initialized = false;
        detector = detector;
        engine = e;
      } in
      rehydrate (get_task_tree root.task.root_id e.store) run

  unfoldable pub reported_by :
      Runner S Agent → Option (Run F H R) → Option (SendResult S × Run F H R)
  reported_by root none = none
  reported_by root (some run) = some (aggregate (root_result root run) run)

  unfoldable pub run_scheduler :
      ℕ → Runner S Agent → LoopDetector → Engine F H → Option (SendResult S × Run F H R)
  unfolding loop reported_by
  run_scheduler fuel root detector e = reported_by root (loop fuel (start_run root detector e))
