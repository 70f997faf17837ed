-- ===== src/Scheduler/Run/Blocked.antt =====
-- A root that does not complete (engine/scheduler.ts): the cascade of its abort reaches the root itself.
use delta_agents.Common.{
  ℕ, String, ◌≡◌, refl, sym, ◌∙◌, ap, subst, true, false, not, ◌&&◌, Option, none, some, List, [],
  ◌∷◌, ◌==◌, ok, err, arith, eq_refl,
}
use delta_agents.Common.Dict
use delta_agents.Scores.{Scores}
use delta_agents.Types.{
  ExecutionStatus, running, aborted, paused, pending, pending_commit, TaskTree,
}
use delta_agents.State.{Snapshot, Task}
use delta_agents.Store.{Store, includes_status, get_task_tree, transition_task_status}
use delta_agents.Store.Laws.{
  get-update_task, get_task_tree-update_task, transition_task_status-refused,
}
use delta_agents.Store.Abort.{abort_patch}
use delta_agents.Store.Abort.Trees.{abort_entire_tree-root}
use delta_agents.Host.{Host}
use delta_agents.Scheduler.Runner.{SendStatus, SendResult, StopReason, Runner, task_status_for}
use delta_agents.Scheduler.Run.{
  Runtime, Run, update_at, settle_with, is_completed, the_store, with_store, with_runners,
  read_clock, set_status, leave_tree, cascade, settle,
}

-- the statuses from which a task can be resumed
abbrev pub resumable : List ExecutionStatus
resumable = paused ∷ pending ∷ pending_commit ∷ []

-- stored as aborted, and refused by the swap that starts a resume
abbrev pub AbortedIn : {S : Type 0} → String → Store S → Type 0
AbortedIn {S = S} id s =
    (t : Task S) × (Dict.get s.tasks id ≡ some t)
    × (t.status ≡ aborted)
    × ((now : ℕ) → transition_task_status id resumable running now s ≡ (err id, s))

module _ {F : Scores} {H : Host} {R : Runtime F H} where
  leave_tree-root :
      (parent_id : Option String) (id : String) (s : Snapshot F.S) (run : Run F H R)
      → parent_id ≡ none
      → leave_tree parent_id id s run ≡ run
  unfolding leave_tree
  leave_tree-root none id s run e = refl
  leave_tree-root (some p) id s run e = absurd (ground arith)

  cascade-aborts :
      (status : SendStatus) (run : Run F H R) (tree : TaskTree) (t : Task F.S)
      → is_completed status ≡ false
      → run.tree_initialized ≡ true
      → get_task_tree run.root_id (the_store run) ≡ ok tree
      → Dict.get (the_store run).tasks run.root_id ≡ some t
      → (t' : Task F.S) × (Dict.get (the_store (cascade run.root_id status run)).tasks run.root_id
          ≡ some t')
        × (t'.status ≡ aborted)
  unfolding cascade read_clock with_store with_runners
  cascade-aborts status run tree t e grown stored_tree stored =
      let at = (H.now run.engine.world).0 in
      let test : (run.root_id == run.root_id && (not (is_completed status) && run.tree_initialized))
          ≡ true =
        rw (eq_refl, e, grown) refl in
      (
        abort_patch (λ id. at) run.root_id t,
        rw test (
            abort_entire_tree-root (λ id. at) run.root_id (the_store run) tree t stored_tree
              stored),
        refl,
      )

  cascade-AbortedIn :
      (status : SendStatus) (run : Run F H R) (tree : TaskTree) (t : Task F.S)
      → is_completed status ≡ false
      → run.tree_initialized ≡ true
      → get_task_tree run.root_id (the_store run) ≡ ok tree
      → Dict.get (the_store run).tasks run.root_id ≡ some t
      → AbortedIn run.root_id (the_store (cascade run.root_id status run))
  unfolding includes_status
  cascade-AbortedIn status run tree t e grown stored_tree stored =
      let (t', there, gone) = cascade-aborts status run tree t e grown stored_tree stored in
      let s = the_store (cascade run.root_id status run) in
      (
        t',
        there,
        gone,
        λ now.
            transition_task_status-refused run.root_id resumable running now s t' there
              (subst (λ status. includes_status resumable status ≡ false) (sym gone) refl),
      )

  -- A root that settles blocked or failed, once a tree has grown below it, is stored as aborted: no resume
  -- can take it up again, although a blocked result asks for one.
  pub settle-unresumable :
      (i : ℕ) (r : Runner F.S R.Agent) (status : SendStatus) (reason : Option StopReason)
      → (run : Run F H R) (tree : TaskTree) (t : Task F.S) → is_completed status ≡ false
      → r.task.id ≡ run.root_id
      → r.task.parent_id ≡ none
      → run.tree_initialized ≡ true
      → get_task_tree run.root_id (the_store run) ≡ ok tree
      → Dict.get (the_store run).tasks run.root_id ≡ some t
      → AbortedIn run.root_id (the_store (settle i r status reason run))
  unfolding settle with_runners set_status with_store read_clock
  settle-unresumable i r status reason run tree t e root top grown stored_tree stored =
      let at = (H.now run.engine.world).0 in
      let to = task_status_for status in
      let patch = λ (x : Task F.S). record x { status = to; updated_at = at } in
      let result : SendResult F.S = record {
        task_id = r.task.id;
        status = status;
        snapshot = r.snapshot;
        reason = reason;
      } in
      let run2 =
        set_status r.task.id to (with_runners run (update_at run.runners i (settle_with result))) in
      let same : settle i r status reason run ≡ cascade run.root_id status run2 =
        ap (cascade r.task.id status)
          (leave_tree-root r.task.parent_id r.task.id r.snapshot run2 top)
        ∙ ap (λ id. cascade id status run2) root in
      let tree_kept =
        get_task_tree-update_task r.task.id run.root_id patch (the_store run) ∙ stored_tree in
      let updated : Dict.get (the_store run2).tasks run.root_id ≡ some (patch t) =
        get-update_task r.task.id run.root_id patch (the_store run)
        ∙ rw (root, eq_refl, stored) refl in
      subst (λ x. AbortedIn run.root_id (the_store x)) (sym same)
        (cascade-AbortedIn status run2 tree (patch t) e grown tree_kept updated)
