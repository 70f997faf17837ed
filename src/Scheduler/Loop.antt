-- ===== src/Scheduler/Loop.antt =====
-- packages/delta/src/engine/scheduler.ts, `runScheduler`: what the round-robin loop does with a runner, and
-- the loop. Its fuel counts passes.
pub mod Admission
pub mod Ends
pub mod Falls
pub mod Reports
use delta_agents.Common.{
  ℕ, zero, suc, ◌+◌, String, Bool, true, false, not, ◌&&◌, Option, none, some, List, [], ◌∷◌, ◌++◌,
  ◌==◌, Result, ok, err, leb, length, includes, filter, all, get_elem?, or_else, if◌then◌else◌,
}
use Prim.Native.String as Texts
use delta_agents.Cost.{add_costs, is_over_budget}
use delta_agents.Scores.{Scores}
use delta_agents.Types.{ExecutionStatus, TaskTree, Message}
use delta_agents.State.{Snapshot, Task, snapshot_from_task, with_status, parent_over}
use delta_agents.Store.{
  Store, Checkpoint, save_task, save_task_tree, get_task_tree, update_task_tree, save_checkpoint,
  get_messages,
}
use delta_agents.Host.{Host}
use delta_agents.Supervision.{SlotResult, granted, queued, slot_tree, request_slot}
use delta_agents.LoopDetector.{reset_phase}
use delta_agents.Scheduler.Runner.{
  DelegationRequest, StepOutcome, outcome_snapshot, SendStatus, said, agent_not_found, step_limit,
  budget_exhausted, parent_exhausted, Runner, make_runner, granted_budget, child_task,
}
use delta_agents.Scheduler.Run.{
  Runtime, Run, update_at, find_runner, the_store, with_store, with_runners, read_clock, new_id,
  set_status, settle,
}

abbrev ids_of : List Message → List String
ids_of [] = []
ids_of (m ∷ ms) = m.id ∷ ids_of ms

-- `payloads.join("; ")`
abbrev joined : List Message → String
joined [] = ""
joined (m ∷ []) = m.payload
joined (m ∷ n ∷ ms) = Texts.◌++◌ m.payload (Texts.◌++◌ "; " (joined (n ∷ ms)))

unfoldable pub same_phase : Option String → Option String → Bool
same_phase none none = true
same_phase (some a) (some b) = a == b
same_phase _ _ = false

unfoldable pub is_fresh : List String → Message → Bool
is_fresh consumed m = m.sender == "caller" && not (includes consumed m.id)

-- `ensureTree`: at most two children run at a time
tree_of : Result String TaskTree → String → TaskTree
tree_of (ok tree) root_id = tree
tree_of (err e) root_id = record {
  root_task_id = root_id;
  active_children = [];
  queued_children = [];
  max_concurrency = 2;
}

module _ {S : Type 0} where
  saved_tree : Result String TaskTree → TaskTree → Store S → Store S
  saved_tree (ok existing) tree s = s
  saved_tree (err e) tree s = (save_task_tree tree s).1

module _ {S A : Type 0} where
  unfoldable pub fold_in : List Message → Runner S A → Runner S A
  fold_in fresh r =
      let ids = ids_of fresh in
      record r {
        consumed = r.consumed ++ ids;
        task = record r.task {
          goal = Texts.◌++◌ r.task.goal (Texts.◌++◌ "\n[queued] " (joined fresh));
        };
        snapshot = record r.snapshot {
          consumed_messages = some (or_else r.snapshot.consumed_messages [] ++ ids);
        };
      }

  unfoldable pub stepped_to : Snapshot S → Runner S A → Runner S A
  stepped_to s r = record r { step = r.step + 1; snapshot = s; previous_phase = s.current_phase }

  -- a child sees the budget and the spend that its parent has now
  unfoldable pub scoped_by : Option ℕ → List (Runner S A) → Snapshot S → Snapshot S
  scoped_by none runners s = s
  scoped_by (some p) runners s = elim (get_elem? runners p) [
    | none ↦ s
    | some parent ↦ record s {
      parent_budget = some parent.snapshot.budget;
      parent_spent = some parent.snapshot.spent;
    }
  ]

  unfoldable pub refresh : Option String → List (Runner S A) → Snapshot S → Snapshot S
  unfolding scoped_by
  refresh none runners s = s
  refresh (some parent_id) runners s = scoped_by (find_runner parent_id runners) runners s

module _ {F : Scores} {H : Host} {R : Runtime F H} where
  open F use {S}
  open H use {now, fresh_id}
  open R use {Agent, name_of, get_agent, max_steps, step_task}

  take_slot : SlotResult → String → String → Agent → Snapshot S → Task S → Run F H R → Run F H R
  take_slot (queued tree) id parent_id agent parent child run = run
  take_slot (granted tree) id parent_id agent parent child run =
      let run1 = set_status id ExecutionStatus.running run in
      let scoped = record (with_status (snapshot_from_task child) ExecutionStatus.running) {
        parent_budget = some parent.budget;
        parent_spent = some parent.spent;
      } in
      let r =
        make_runner (record child { status = ExecutionStatus.running }) agent scoped max_steps in
      with_runners run1 (run1.runners ++ r ∷ [])

  -- the children of the tree are those of the slot's tree; a missing tree is made first
  with_slot : SlotResult → Run F H R → Run F H R
  unfolding tree_of saved_tree
  with_slot slot run =
      let existing = get_task_tree run.root_id (the_store run) in
      let tree = tree_of existing run.root_id in
      let patch = λ (t : TaskTree). record t {
        active_children = (slot_tree slot).active_children;
        queued_children = (slot_tree slot).queued_children;
      } in
      let store =
        (update_task_tree run.root_id patch (saved_tree existing tree (the_store run))).1 in
      record (with_store run store) { tree_initialized = true }

  -- the child is saved, and asks for a slot in the tree
  seat_child : String → Agent → Snapshot S → Task S → Run F H R → Run F H R
  unfolding take_slot with_slot
  seat_child parent_id agent parent child run =
      let run1 = with_store run (save_task child (the_store run)).1 in
      let tree = tree_of (get_task_tree run1.root_id (the_store run1)) run1.root_id in
      let slot = request_slot tree child.id in
      take_slot slot child.id parent_id agent parent child (with_slot slot run1)

  -- the part of `handleDelegate` for a registered agent
  unfoldable pub admit_child :
      ℕ → Runner S Agent → Agent → DelegationRequest → Run F H R → Run F H R
  unfolding seat_child
  admit_child i r agent d run =
      let budget = granted_budget F r.snapshot d in
      let parent = record r.snapshot { spent = add_costs r.snapshot.spent budget } in
      let run1 = with_runners run (update_at run.runners i (λ p. record p { snapshot = parent })) in
      let (id, run2) = new_id "tsk_" run1 in
      let (at, run3) = read_clock run2 in
      let child = child_task F id run3.root_id r.task.id budget at d in
      seat_child r.task.id agent parent child run3

  unfoldable pub handle_delegate : ℕ → Runner S Agent → DelegationRequest → Run F H R → Run F H R
  handle_delegate i r d run = elim (get_agent d.agent_name) [
    | none ↦ settle i r SendStatus.failed (some (agent_not_found d.agent_name)) run
    | some agent ↦ admit_child i r agent d run
  ]

  -- the messages that callers left for the task since it last looked
  unfoldable pub fresh_messages : Runner S Agent → Run F H R → List Message
  unfolding is_fresh
  fresh_messages r run = filter (is_fresh r.consumed) (get_messages r.task.id (the_store run))

  -- `drainMessages`, where there are some
  unfoldable pub drain : ℕ → Runner S Agent → List Message → Run F H R → Run F H R
  drain i r fresh run =
      let folded = fold_in fresh r in
      let run1 = with_runners run (update_at run.runners i (fold_in fresh)) in
      let (id, run2) = new_id "ckpt_" run1 in
      let (at, run3) = read_clock run2 in
      let checkpoint : Checkpoint S = record {
        id = id;
        task_id = r.task.id;
        phase = none;
        state = folded.snapshot;
        created_at = at;
      } in
      with_store run3 (save_checkpoint checkpoint (the_store run3)).1

  -- natural-done, without a message that is new
  unfoldable pub finish : ℕ → Runner S Agent → Run F H R → Run F H R
  finish i r run =
      if is_over_budget r.snapshot.spent r.snapshot.budget
      then settle i r SendStatus.failed (some budget_exhausted) run
      else if parent_over r.snapshot.parent_budget r.snapshot.parent_spent
      then settle i r SendStatus.failed (some parent_exhausted) run
      else settle i r SendStatus.completed none run

  unfoldable pub after_work : List Message → ℕ → Runner S Agent → Run F H R → Run F H R
  after_work [] i r run = finish i r run
  after_work (m ∷ ms) i r run = drain i r (m ∷ ms) run

  -- what the loop does with an outcome; `r` is the runner after the step
  unfoldable pub follow : StepOutcome S → ℕ → Runner S Agent → Run F H R → Run F H R
  unfolding after_work
  follow (StepOutcome.stepped s) i r run = run
  follow (StepOutcome.delegate s d) i r run = handle_delegate i r d run
  follow (StepOutcome.blocked s reason) i r run =
      settle i r SendStatus.blocked (some (said reason)) run
  follow (StepOutcome.failed s reason) i r run =
      settle i r SendStatus.failed (some (said reason)) run
  follow (StepOutcome.natural_done s) i r run = after_work (fresh_messages r run) i r run

  -- a runner that is not settled takes its step
  unfoldable pub take_step : ℕ → Runner S Agent → Run F H R → Run F H R
  unfolding same_phase
  take_step i r run =
      let seen = refresh r.task.parent_id run.runners r.snapshot in
      let (outcome, d, e) = step_task r.task r.agent seen r.step (run.detector, run.engine) in
      let s = outcome_snapshot outcome in
      let d' =
        if same_phase s.current_phase r.previous_phase
        then d
        else reset_phase (name_of r.agent) d in
      let run1 = record run {
        runners = update_at run.runners i (stepped_to s);
        detector = d';
        engine = e;
      } in
      follow outcome i (stepped_to s r) run1

  -- by whether the runner is settled, and at its limit
  unfoldable pub advance_by : Bool → Bool → ℕ → Runner S Agent → Run F H R → Run F H R
  advance_by true at_limit i r run = run
  advance_by false true i r run = settle i r SendStatus.failed (some (step_limit r.max_steps)) run
  advance_by false false i r run = take_step i r run

  unfoldable pub turn_of : Option (Runner S Agent) → ℕ → Run F H R → Run F H R
  unfolding advance_by
  turn_of none i run = run
  turn_of (some r) i run = advance_by r.settled (leb r.max_steps r.step) i r run

  unfoldable pub turn : ℕ → Run F H R → Run F H R
  unfolding turn_of
  turn i run = turn_of (get_elem? run.runners i) i run

  -- the runners of the list as it is when the pass starts
  unfoldable pub pass : ℕ → ℕ → Run F H R → Run F H R
  pass zero i run = run
  pass (suc n) i run = pass n (suc i) (turn i run)

  unfoldable pub all_settled : Run F H R → Bool
  all_settled run = all (λ r. r.settled) run.runners

  -- none: the fuel is used up
  unfoldable pub loop : ℕ → Run F H R → Option (Run F H R)
  loop zero run = if all_settled run then some run else none
  loop (suc fuel) run = elim (all_settled run) [
    | true ↦ some run
    | false ↦ loop fuel (pass (length run.runners) 0 run)
  ]
