-- ===== src/Scheduler/Loop/Admission.antt =====
-- What a step may cost, and what the admission of a child and the drain of the messages do to the
-- potential of a run (engine/scheduler.ts).
use delta_agents.Common.{
  ℕ, suc, ◌+◌, ◌≤◌, String, ◌≡◌, refl, subst, List, [], ◌∷◌, Result, ok, err, arith, length,
  length-append, Bool-cases, inl, inr, ltb, eq_refl,
}
use delta_agents.Common.Dict.{get-put}
use delta_agents.Cost.{add_costs}
use delta_agents.Scores.{Scores}
use delta_agents.Types.{ExecutionStatus, TaskTree, Message}
use delta_agents.State.{Snapshot, Task}
use delta_agents.Store.{
  Store, save_task, save_task_tree, get_task_tree, update_task_tree, save_checkpoint,
}
use delta_agents.Store.Abort.{get_task_tree-update_task_tree}
use delta_agents.Host.{Host}
use delta_agents.Execution.{Engine}
use delta_agents.Supervision.{SlotResult, granted, queued, slot_tree, request_slot}
use delta_agents.LoopDetector.{LoopDetector}
use delta_agents.Scheduler.Runner.{
  DelegationRequest, StepOutcome, Runner, make_runner, granted_budget, child_task,
}
use delta_agents.Scheduler.Run.{
  Runtime, Run, update_at, the_store, with_store, with_runners, read_clock, new_id, set_status,
}
use delta_agents.Scheduler.Run.Potential.{
  weights-update_at, waiting, IsSteady, credit, Moves, Moves-then, Moves-by, Moves-by_credit,
  push-Moves, with_runners-Moves, read_clock-Moves, set_status-Moves,
}
use delta_agents.Scheduler.Loop.{
  tree_of, saved_tree, take_slot, with_slot, seat_child, admit_child, fold_in, drain,
}

-- what an outcome costs of the delegations to come
abbrev pub delegations : {S : Type 0} → StepOutcome S → ℕ
delegations (StepOutcome.delegate s d) = 1
delegations _ = 0

-- What is asked of a step: it leaves the trees alone, which the scheduler owns, and a delegation uses up
-- some of a measure of the world that nothing else raises.
pub record IsBounded {F : Scores} {H : Host} (R : Runtime F H) (left : H.World → ℕ) : Type 0 where
  pub steady : IsSteady H left
  pub trees :
      (t : Task F.S) (a : R.Agent) (s : Snapshot F.S) (n : ℕ) (d : LoopDetector) (e : Engine F H)
      (root : String)
      → get_task_tree root (R.step_task t a s n (d, e)).2.store ≡ get_task_tree root e.store
  pub spends :
      (t : Task F.S) (a : R.Agent) (s : Snapshot F.S) (n : ℕ) (d : LoopDetector) (e : Engine F H)
      → left (R.step_task t a s n (d, e)).2.world + delegations (R.step_task t a s n (d, e)).0
        ≤ left e.world

-- a slot leaves the queue as long as it was, a place in the queue makes it longer by one
abbrev Fits : SlotResult → ℕ → Type 0
Fits (granted t) n = length t.queued_children ≡ n
Fits (queued t) n = length t.queued_children ≡ n + 1

request_slot-Fits :
    (tree : TaskTree) (id : String) → Fits (request_slot tree id) (length tree.queued_children)
unfolding request_slot
request_slot-Fits tree id =
    elim (Bool-cases (ltb (length tree.active_children) tree.max_concurrency)) [
      | inl room ↦ rw room refl
      | inr full ↦ rw full (length-append tree.queued_children (id ∷ []))
    ]

-- the tree of a run, made where it is missing, is the stored one after it is changed
tree-saved :
    {S : Type 0}
    → (root : String) (f : TaskTree → TaskTree) (s : Store S) (found : Result String TaskTree)
    → get_task_tree root s ≡ found
    → get_task_tree root (update_task_tree root f (saved_tree found (tree_of found root) s)).1
      ≡ ok (f (tree_of found root))
unfolding saved_tree tree_of save_task_tree get_task_tree
tree-saved root f s (ok tree) h = get_task_tree-update_task_tree (λ id. 0) root f s tree h
tree-saved root f s (err e) h =
    let made = tree_of (err e) root in
    let stored : get_task_tree root (save_task_tree made s).1 ≡ ok made =
      ground (arith, get-put s.task_trees root root made, eq_refl root) in
    get_task_tree-update_task_tree (λ id. 0) root f (save_task_tree made s).1 made stored

tree_of-waiting :
    (found : Result String TaskTree) (root : String)
    → length (tree_of found root).queued_children ≡ waiting found
unfolding tree_of
tree_of-waiting (ok tree) root = refl
tree_of-waiting (err e) root = refl

module _ {F : Scores} {H : Host} {R : Runtime F H} (left : H.World → ℕ) (b : IsBounded R left) where
  new_id-Moves : (prefix : String) (run : Run F H R) → Moves left 0 run (new_id prefix run).1
  unfolding new_id
  new_id-Moves prefix run =
      Moves-by left 0 run (new_id prefix run).1 refl (omega arith)
        (omega (arith, b.steady.ids prefix run.engine.world))

  -- a child that got a slot runs
  take_slot-Moves :
      (tree : TaskTree) (id parent_id : String) (agent : R.Agent) (parent : Snapshot F.S)
      (child : Task F.S)
      → (run : Run F H R)
      → Moves left
          (suc R.max_steps)
          run
          (take_slot (granted tree) id parent_id agent parent child run)
  unfolding take_slot make_runner
  take_slot-Moves tree id parent_id agent parent child run =
      Moves-then left (suc R.max_steps) run _ _
        (set_status-Moves left b.steady id ExecutionStatus.running run)
        (push-Moves left _ (set_status id ExecutionStatus.running run) (omega arith))

  with_slot-credit :
      (slot : SlotResult) (run : Run F H R)
      → credit left (with_slot slot run)
        ≡ length (slot_tree slot).queued_children + left run.engine.world
  unfolding with_slot with_store
  with_slot-credit slot run =
      let existing = get_task_tree run.root_id (the_store run) in
      let patch = λ (t : TaskTree). record t {
        active_children = (slot_tree slot).active_children;
        queued_children = (slot_tree slot).queued_children;
      } in
      rw (tree-saved run.root_id patch (the_store run) existing refl) refl

  slot-Moves :
      (slot : SlotResult) (id parent_id : String) (agent : R.Agent) (parent : Snapshot F.S)
      (child : Task F.S)
      → (run : Run F H R) → Fits slot (waiting (get_task_tree run.root_id (the_store run)))
      → Moves left
          (suc R.max_steps)
          run
          (take_slot slot id parent_id agent parent child (with_slot slot run))
  unfolding with_slot with_store take_slot
  slot-Moves (granted t) id parent_id agent parent child run h =
      let run1 = with_slot (granted t) run in
      Moves-then left (suc R.max_steps) run run1 _
        (Moves-by left 0 run run1 refl (omega arith)
          (omega (arith, with_slot-credit (granted t) run, h)))
        (take_slot-Moves t id parent_id agent parent child run1)
  slot-Moves (queued t) id parent_id agent parent child run h =
      let run1 = with_slot (queued t) run in
      Moves-by_credit left run run1 refl (omega arith)
        (omega (arith, with_slot-credit (queued t) run, h))

  seat_child-Moves :
      (parent_id : String) (agent : R.Agent) (parent : Snapshot F.S) (child : Task F.S)
      (run : Run F H R)
      → Moves left (suc R.max_steps) run (seat_child parent_id agent parent child run)
  unfolding seat_child save_task get_task_tree with_store
  seat_child-Moves parent_id agent parent child run =
      let run1 = with_store run (save_task child (the_store run)).1 in
      let existing = get_task_tree run1.root_id (the_store run1) in
      let tree = tree_of existing run1.root_id in
      let fits = request_slot-Fits tree child.id in
      Moves-then left (suc R.max_steps) run run1 _
        (Moves-by left 0 run run1 refl (omega arith) (omega arith))
        (slot-Moves (request_slot tree child.id) child.id parent_id agent parent child run1 (
          subst (λ n. Fits (request_slot tree child.id) n) (tree_of-waiting existing run1.root_id)
            fits))

  pub admit_child-Moves :
      (i : ℕ) (r : Runner F.S R.Agent) (agent : R.Agent) (d : DelegationRequest) (run : Run F H R)
      → Moves left (suc R.max_steps) run (admit_child i r agent d run)
  unfolding admit_child
  admit_child-Moves i r agent d run =
      let budget = granted_budget F r.snapshot d in
      let parent : Snapshot F.S = record r.snapshot { spent = add_costs r.snapshot.spent budget } in
      let f = λ (p : Runner F.S R.Agent). record p { snapshot = parent } in
      let run1 = with_runners run (update_at run.runners i f) in
      let (id, run2) = new_id "tsk_" run1 in
      let (at, run3) = read_clock run2 in
      let child = child_task F id run3.root_id r.task.id budget at d in
      Moves-then left (suc R.max_steps) run run1 _
        (with_runners-Moves left run _ (weights-update_at run.runners i f (λ p. omega arith)))
        (Moves-then left (suc R.max_steps) run1 run2 _ (new_id-Moves "tsk_" run1) (
          Moves-then left (suc R.max_steps) run2 run3 _ (read_clock-Moves left b.steady run2)
            (seat_child-Moves r.task.id agent parent child run3)))

  pub drain-Moves :
      (i : ℕ) (r : Runner F.S R.Agent) (fresh : List Message) (run : Run F H R)
      → Moves left 0 run (drain i r fresh run)
  unfolding drain fold_in with_store save_checkpoint get_task_tree
  drain-Moves i r fresh run =
      let run1 = with_runners run (update_at run.runners i (fold_in fresh)) in
      let (id, run2) = new_id "ckpt_" run1 in
      Moves-then left 0 run run1 _
        (with_runners-Moves left run _
          (weights-update_at run.runners i (fold_in fresh) (λ p. omega arith)))
        (Moves-then left 0 run1 run2 _ (new_id-Moves "ckpt_" run1) (
          let clock = read_clock-Moves left b.steady run2 in
          record { root = clock.root; bounded = clock.bounded }))
