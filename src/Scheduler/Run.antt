-- ===== src/Scheduler/Run.antt =====
-- packages/delta/src/engine/scheduler.ts, `runScheduler`: the state of a run, and how a runner starts and
-- settles. A runner that the program mutates is known by its position in the list, the root's is 0. What
-- a step does is `Runtime.step_task`, a parameter; what an agent is, and which are registered, are
-- others. Diagnostics are left out.
pub mod Potential
pub mod Kept
pub mod Blocked
use delta_agents.Common.{
  ℕ, zero, suc, String, Bool, true, false, not, ◌&&◌, ◌||◌, Option, none, some, List, [], ◌∷◌, ◌++◌,
  ◌==◌, Result, ok, err, if◌then◌else◌,
}
use Prim.Native.String as Texts
use delta_agents.Cost.{Cost, remaining_cost}
use delta_agents.Scores.{Scores}
use delta_agents.Types.{ExecutionStatus, TaskTree}
use delta_agents.State.{Snapshot, Task, snapshot_from_task, with_status}
use delta_agents.Store.{Store, get_task, update_task, get_task_tree, update_task_tree}
use delta_agents.Store.Abort.{abort_entire_tree}
use delta_agents.Host.{Host}
use delta_agents.Execution.{Engine}
use delta_agents.Supervision.{release_slot}
use delta_agents.LoopDetector.{LoopDetector}
use delta_agents.Scheduler.Runner.{
  StepOutcome, SendStatus, StopReason, tree_aborted, SendResult, Runner, make_runner,
  task_status_for,
}

-- What the loop uses of the engine's bundle.
pub record Runtime (F : Scores) (H : Host) : Type 1 where
  pub Agent : Type 0
  pub name_of : Agent → String
  pub get_agent : String → Option Agent
  pub max_steps : ℕ
  pub step_task :
      Task F.S
      → Agent
      → Snapshot F.S
      → ℕ
      → LoopDetector × Engine F H
      → StepOutcome F.S × LoopDetector × Engine F H

abbrev pub update_at {ℓ} : {A : Type ℓ} → List A → ℕ → (A → A) → List A
update_at [] i f = []
update_at (x ∷ xs) zero f = f x ∷ xs
update_at (x ∷ xs) (suc i) f = x ∷ update_at xs i f

-- the variables of a run, and the store and the world behind them
pub record Run (F : Scores) (H : Host) (R : Runtime F H) : Type 0 where
  pub root_id : String
  pub runners : List (Runner F.S R.Agent)
  pub tree_initialized : Bool
  pub detector : LoopDetector
  pub engine : Engine F H

abbrev pub is_completed : SendStatus → Bool
is_completed SendStatus.completed = true
is_completed _ = false

shown : {S : Type 0} → Snapshot S → Option (SendResult S) → Option (SendResult S)
shown snapshot none = none
shown snapshot (some result) = some (record result { snapshot = snapshot })

module _ {S A : Type 0} where
  -- the position of the first runner of a task
  unfoldable pub find_runner : String → List (Runner S A) → Option ℕ
  find_runner id [] = none
  find_runner id (r ∷ rs) =
      if r.task.id == id
      then some 0
      else elim (find_runner id rs) [ none ↦ none | some i ↦ some (suc i) ]

  -- a runner with its result
  unfoldable pub settle_with : SendResult S → Runner S A → Runner S A
  settle_with result r = record r { settled = true; result = some result }

  -- the parent's spend without what the child left of its reservation, also in a result it already has
  unfoldable pub refunded : Cost → Runner S A → Runner S A
  unfolding shown
  refunded refund r =
      let s = record r.snapshot { spent = remaining_cost r.snapshot.spent refund } in
      record r { snapshot = s; result = shown s r.result }

  abort_runner : String → Runner S A → Runner S A
  abort_runner root_id r =
      if r.settled || r.task.id == root_id
      then r
      else settle_with
          (record {
            task_id = r.task.id;
            status = SendStatus.failed;
            snapshot = r.snapshot;
            reason = some tree_aborted;
          })
          r

  abbrev abort_runners : String → List (Runner S A) → List (Runner S A)
  abort_runners root_id [] = []
  abort_runners root_id (r ∷ rs) = abort_runner root_id r ∷ abort_runners root_id rs

module _ {F : Scores} {H : Host} {R : Runtime F H} where
  open F use {S}
  open H use {now, fresh_id}
  open R use {Agent, name_of, get_agent, max_steps, step_task}

  abbrev pub the_store : Run F H R → Store S
  the_store run = run.engine.store

  unfoldable pub with_store : Run F H R → Store S → Run F H R
  with_store run store = record run { engine = record run.engine { store = store } }

  unfoldable pub with_runners : Run F H R → List (Runner S Agent) → Run F H R
  with_runners run runners = record run { runners = runners }

  -- a reading of the clock, and an id
  unfoldable pub read_clock : Run F H R → ℕ × Run F H R
  read_clock run =
      let (at, w) = now run.engine.world in
      (at, record run { engine = record run.engine { world = w } })

  unfoldable pub new_id : String → Run F H R → String × Run F H R
  new_id prefix run =
      let (id, w) = fresh_id prefix run.engine.world in
      (id, record run { engine = record run.engine { world = w } })

  unfoldable pub set_status : String → ExecutionStatus → Run F H R → Run F H R
  set_status id status run =
      let (at, run1) = read_clock run in
      with_store run1
        (update_task id (λ t. record t { status = status; updated_at = at }) (the_store run1)).1

  -- `startRunner`: a task or an agent that is not there is passed over
  start : Result String (Task S) → String → Run F H R → Run F H R
  start (err e) child_id run = run
  start (ok child) child_id run = elim (get_agent child.assigned_agent) [
    | none ↦ run
    | some agent ↦
        let run1 = set_status child_id ExecutionStatus.running run in
        let fresh = with_status (snapshot_from_task child) ExecutionStatus.running in
        let r =
          make_runner (record child { status = ExecutionStatus.running }) agent fresh max_steps in
        with_runners run1 (run1.runners ++ r ∷ [])
  ]

  unfoldable pub start_runner : String → Run F H R → Run F H R
  unfolding start
  start_runner child_id run = start (get_task child_id (the_store run)) child_id run

  refund_parent : String → Snapshot S → Run F H R → Run F H R
  refund_parent parent_id child run = elim (find_runner parent_id run.runners) [
    | none ↦ run
    | some p ↦
        with_runners run
          (update_at run.runners p (refunded (remaining_cost child.budget child.spent)))
  ]

  promoted : Option String → Run F H R → Run F H R
  promoted none run = run
  promoted (some id) run = start_runner id run

  release : Result String TaskTree → String → Run F H R → Run F H R
  unfolding promoted
  release (err e) task_id run = run
  release (ok tree) task_id run =
      let released = release_slot tree task_id in
      let patch = λ (t : TaskTree). record t {
        active_children = released.tree.active_children;
        queued_children = released.tree.queued_children;
      } in
      promoted released.promoted
        (with_store run (update_task_tree run.root_id patch (the_store run)).1)

  -- a child that settles refunds its parent and frees its slot
  unfoldable pub leave_tree : Option String → String → Snapshot S → Run F H R → Run F H R
  unfolding refund_parent release
  leave_tree none task_id snapshot run = run
  leave_tree (some parent_id) task_id snapshot run =
      let run1 = refund_parent parent_id snapshot run in
      let run2 = release (get_task_tree run1.root_id (the_store run1)) task_id run1 in
      if run1.tree_initialized then run2 else run

  unfoldable pub cascade : String → SendStatus → Run F H R → Run F H R
  unfolding abort_runner
  cascade task_id status run =
      let (at, run1) = read_clock run in
      let aborted = (abort_entire_tree (λ id. at) run1.root_id (the_store run1)).1 in
      let run2 = with_runners run1 (abort_runners run1.root_id run1.runners) in
      if task_id == run.root_id && (not (is_completed status) && run.tree_initialized)
      then with_store run2 aborted
      else run

  -- `settle`, of the runner `r` at position `i`
  unfoldable pub settle :
      ℕ → Runner S Agent → SendStatus → Option StopReason → Run F H R → Run F H R
  unfolding leave_tree cascade
  settle i r status reason run =
      let result : SendResult S = record {
        task_id = r.task.id;
        status = status;
        snapshot = r.snapshot;
        reason = reason;
      } in
      let run1 = with_runners run (update_at run.runners i (settle_with result)) in
      let run2 = set_status r.task.id (task_status_for status) run1 in
      let run3 = leave_tree r.task.parent_id r.task.id r.snapshot run2 in
      cascade r.task.id status run3
