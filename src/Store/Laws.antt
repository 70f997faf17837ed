-- ===== src/Store/Laws.antt =====
-- What a read of the store sees after a write (ports/in-memory-store.ts).
use mathlib.Core.Option
use delta_agents.Common.{
  ℕ, List, ok, err, true, String, ◌≡◌, refl, ◌∙◌, false, some, [], ◌∷◌, ◌++◌, ◌==◌, arith, or_else,
  get_last?-concat, eq_refl, eq_iff, if◌then◌else◌, Option-cases, inl, inr,
}
use delta_agents.Common.Dict
use delta_agents.Common.Dict.{get-put}
use delta_agents.Types.{ExecutionStatus}
use delta_agents.State.{Task}
use delta_agents.Store.{
  Desk, with_desk, Store, Execution, Checkpoint, EscalationRecord, patch_execution, save_execution,
  update_execution, includes_status, transition, transition_task_status, get_task, patch_task,
  update_task, get_task_tree, save_checkpoint, get_latest_checkpoint, save_escalation,
  get_escalations_by_task,
}

module _ {S : Type 0} where
  -- An execution that is saved and then updated is the updated one; the others stay, and so do tasks
  -- and checkpoints.
  pub saved_and_updated :
      (s : Store S) (x : Execution) (f : Execution → Execution)
      → let s' = (update_execution x.id f (save_execution x s).1).1 in
        (Dict.get s'.executions x.id ≡ some (f x))
        × ((id : String)
            → (x.id == id) ≡ false
            → Dict.get s'.executions id ≡ Dict.get s.executions id)
        × (s'.tasks ≡ s.tasks)
        × (s'.checkpoints_by_task ≡ s.checkpoints_by_task)
  unfolding save_execution update_execution
  saved_and_updated s x f =
      let here : Dict.get (Dict.put s.executions x.id x) x.id ≡ some x =
        ground (arith, get-put s.executions x.id x.id x, eq_refl x.id) in
      rw (here, patch_execution)
        (
          ground (arith, get-put (Dict.put s.executions x.id x) x.id x.id (f x), eq_refl x.id),
          λ id other. ground (
            arith,
            get-put (Dict.put s.executions x.id x) x.id id (f x),
            get-put s.executions x.id id x,
          ),
          refl,
          refl,
        )

  -- The same where helpers of a context write between the two.
  pub saved_and_updated_between :
      (s : Store S) (x : Execution) (f : Execution → Execution) (d : Desk)
      → let s' = (update_execution x.id f (with_desk d (save_execution x s).1)).1 in
        (Dict.get s'.executions x.id ≡ some (f x))
        × ((id : String)
            → (x.id == id) ≡ false
            → Dict.get s'.executions id ≡ Dict.get s.executions id)
        × (s'.tasks ≡ s.tasks)
        × (s'.checkpoints_by_task ≡ s.checkpoints_by_task)
  unfolding save_execution
  saved_and_updated_between s x f d = saved_and_updated (with_desk d s) x f

  -- The checkpoint that was saved last for a task is its latest; other tasks keep theirs.
  pub get_latest_checkpoint-save_checkpoint :
      (c : Checkpoint S) (s : Store S) (task_id : String)
      → get_latest_checkpoint task_id (save_checkpoint c s).1
        ≡ (if c.task_id == task_id then some c else get_latest_checkpoint task_id s)
  unfolding get_latest_checkpoint save_checkpoint
  get_latest_checkpoint-save_checkpoint c s task_id =
      let existing = or_else (Dict.get s.checkpoints_by_task c.task_id) [] in
      ground (
        arith,
        get-put s.checkpoints_by_task c.task_id task_id (existing ++ c ∷ []),
        get_last?-concat existing c,
      )

  -- An update reaches a task that is stored, and creates none.
  pub get-update_task :
      (id j : String) (f : Task S → Task S) (s : Store S)
      → Dict.get (update_task id f s).1.tasks j
        ≡ (if id == j then Option.map f (Dict.get s.tasks j) else Dict.get s.tasks j)
  unfolding update_task
  get-update_task id j f s = elim (Option-cases (Dict.get s.tasks id)) [
    | inl e ↦ rw (e, patch_task) (ground (arith, eq_iff id j))
    | inr (t, e) ↦ rw (e, patch_task) (ground (arith, get-put s.tasks id j (f t), eq_iff id j))
  ]

  pub checkpoints-update_task :
      (id : String) (f : Task S → Task S) (s : Store S)
      → (update_task id f s).1.checkpoints_by_task ≡ s.checkpoints_by_task
  unfolding update_task
  checkpoints-update_task id f s = ground arith

  pub escalations-update_task :
      (id : String) (f : Task S → Task S) (s : Store S)
      → (update_task id f s).1.escalations_by_task ≡ s.escalations_by_task
  unfolding update_task
  escalations-update_task id f s = ground arith

  -- the task that an update is about
  pub get_same-update_task :
      (id : String) (f : Task S → Task S) (s : Store S)
      → Dict.get (update_task id f s).1.tasks id ≡ Option.map f (Dict.get s.tasks id)
  get_same-update_task id f s = get-update_task id id f s ∙ (rw (eq_refl id) refl)

  pub save_escalation-keeps :
      (r : EscalationRecord) (s : Store S)
      → ((save_escalation r s).1.tasks ≡ s.tasks)
        × ((save_escalation r s).1.checkpoints_by_task ≡ s.checkpoints_by_task)
  unfolding save_escalation
  save_escalation-keeps r s = (refl, refl)

  pub get_escalations-save_escalation :
      (r : EscalationRecord) (s : Store S)
      → get_escalations_by_task r.task_id (save_escalation r s).1
        ≡ get_escalations_by_task r.task_id s ++ r ∷ []
  unfolding get_escalations_by_task save_escalation
  get_escalations-save_escalation r s =
      let existing = or_else (Dict.get s.escalations_by_task r.task_id) [] in
      ground (
        arith,
        get-put s.escalations_by_task r.task_id r.task_id (existing ++ r ∷ []),
        eq_refl r.task_id,
      )

-- updating a task leaves the trees
pub get_task_tree-update_task :
    {S : Type 0}
    → (id root : String) (f : Task S → Task S) (s : Store S)
    → get_task_tree root (update_task id f s).1 ≡ get_task_tree root s
unfolding get_task_tree update_task
get_task_tree-update_task id root f s = elim (Option-cases (Dict.get s.tasks id)) [
  | inl e ↦ rw (e, patch_task) refl
  | inr (t, e) ↦ rw (e, patch_task) refl
]

-- a status that is not among the expected ones refuses the swap
pub transition_task_status-refused :
    {S : Type 0}
    → (id : String) (from : List ExecutionStatus) (to : ExecutionStatus) (now : ℕ)
    → (s : Store S) (t : Task S) → Dict.get s.tasks id ≡ some t
    → includes_status from t.status ≡ false
    → transition_task_status id from to now s ≡ (err id, s)
unfolding transition_task_status
transition_task_status-refused id from to now s t stored other = rw (stored, transition, other) refl

pub get_task-stored :
    {S : Type 0}
    → (id : String) (s : Store S) (t : Task S) → Dict.get s.tasks id ≡ some t
    → get_task id s ≡ ok t
unfolding get_task
get_task-stored id s t stored = rw stored refl

-- a status that is among the expected ones is swapped
pub transition_task_status-swapped :
    {S : Type 0}
    → (id : String) (from : List ExecutionStatus) (to : ExecutionStatus) (now : ℕ)
    → (s : Store S) (t : Task S) → Dict.get s.tasks id ≡ some t
    → includes_status from t.status ≡ true
    → let t' = record t { status = to; updated_at = now } in
      transition_task_status id from to now s ≡ (ok t', record s { tasks = Dict.put s.tasks id t' })
unfolding transition_task_status
transition_task_status-swapped id from to now s t stored expected =
    rw (stored, transition, expected) refl

pub latest-update_task :
    {S : Type 0}
    → (id : String) (f : Task S → Task S) (s : Store S)
    → get_latest_checkpoint id (update_task id f s).1 ≡ get_latest_checkpoint id s
unfolding get_latest_checkpoint
latest-update_task id f s = rw (checkpoints-update_task id f s) refl
