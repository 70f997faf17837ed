-- ===== src/Store.antt =====
-- packages/delta/src/ports/in-memory-store.ts: the adapter of `StoragePort` that keeps its data in
-- Maps. The life of a message stands in Store/Mailbox, the queries and the smaller records in
-- Store/Queries; a patch (`Partial<Task>`) is the function that applies it. A failed lookup is `err` of the key.
-- A checkpoint holds the snapshot itself: `snapshotToJson` and back is the identity on its fields.
pub mod Laws
pub mod Abort
pub mod Mailbox
pub mod Queries
use delta_agents.Common.{
  ℕ, eqb, String, Bool, true, false, not, Option, none, some, List, [], ◌∷◌, ◌++◌, ◌==◌, Result, ok,
  err, or_else, get_last?, if◌then◌else◌, filter, is_some,
}
use delta_agents.Common.Dict
use delta_agents.Common.Dict.{Dict}
use delta_agents.Cost.{Cost}
use delta_agents.Types.{
  ExecutionStatus, running, completed, failed, aborted, paused, pending_commit, ApprovalStatus,
  TaskTree, EscalationTrigger, Message, Memory, Commit, Queue,
}
use delta_agents.State.{Snapshot, Task}

pub record Execution : Type 0 where
  pub id : String
  pub task_id : String
  pub action : String
  pub started_at : ℕ
  pub ended_at : Option ℕ
  pub status : ExecutionStatus
  pub cost : Cost

pub record Checkpoint (S : Type 0) : Type 0 where
  pub id : String
  pub task_id : String
  pub phase : Option String
  pub state : Snapshot S
  pub created_at : ℕ

pub record ApprovalRequest : Type 0 where
  pub id : String
  pub task_id : String
  pub action : String
  pub reason : String
  pub status : ApprovalStatus
  pub rejection_reason : Option String
  pub created_at : ℕ

pub record EscalationRecord : Type 0 where
  pub id : String
  pub task_id : String
  pub trigger : EscalationTrigger
  pub created_at : ℕ

pub record Store (S : Type 0) : Type 0 where
  pub tasks : Dict (Task S)
  pub task_trees : Dict TaskTree
  pub executions : Dict Execution
  pub checkpoints_by_task : Dict (List (Checkpoint S))
  pub approvals : Dict ApprovalRequest
  pub escalations_by_task : Dict (List EscalationRecord)
  pub messages_by_task : Dict (List Message)
  pub memories_by_agent : Dict (List Memory)
  pub commits_by_agent : Dict (List Commit)
  pub queues : Dict Queue

-- what the helpers of a context write: messages, memories, and the approval requests of channels
pub record Desk : Type 0 where
  pub messages_by_task : Dict (List Message)
  pub memories_by_agent : Dict (List Memory)
  pub approvals : Dict ApprovalRequest

-- a number for each status, by which two are compared
abbrev rank : ExecutionStatus → ℕ
rank ExecutionStatus.pending = 0
rank running = 1
rank completed = 2
rank failed = 3
rank aborted = 4
rank paused = 5
rank pending_commit = 6

abbrev pub same_status : ExecutionStatus → ExecutionStatus → Bool
same_status a b = eqb (rank a) (rank b)

unfoldable pub includes_status : List ExecutionStatus → ExecutionStatus → Bool
includes_status [] s = false
includes_status (x ∷ xs) s = if same_status x s then true else includes_status xs s

abbrev found : {V : Type 0} → String → Option V → Result String V
found id none = err id
found id (some v) = ok v

keep_executions : String → Dict Execution → Dict Execution
keep_executions task_id [] = []
keep_executions task_id ((id, e) ∷ rest) =
    let kept = keep_executions task_id rest in if e.task_id == task_id then kept else (id, e) ∷ kept

module _ {S : Type 0} where
  abbrev pub empty : Store S
  empty = record {
    tasks = [];
    task_trees = [];
    executions = [];
    checkpoints_by_task = [];
    approvals = [];
    escalations_by_task = [];
    messages_by_task = [];
    memories_by_agent = [];
    commits_by_agent = [];
    queues = [];
  }

  abbrev pub desk_of : Store S → Desk
  desk_of s = record {
    messages_by_task = s.messages_by_task;
    memories_by_agent = s.memories_by_agent;
    approvals = s.approvals;
  }

  abbrev pub with_desk : Desk → Store S → Store S
  with_desk d s = record s {
    messages_by_task = d.messages_by_task;
    memories_by_agent = d.memories_by_agent;
    approvals = d.approvals;
  }

  -- tasks
  unfoldable pub save_task : Task S → Store S → Result String (Task S) × Store S
  save_task task s = (ok task, record s { tasks = Dict.put s.tasks task.id task })

  unfoldable pub get_task : String → Store S → Result String (Task S)
  get_task id s = found id (Dict.get s.tasks id)

  unfoldable pub patch_task :
      String → (Task S → Task S) → Option (Task S) → Store S → Result String (Task S) × Store S
  patch_task id patch none s = (err id, s)
  patch_task id patch (some existing) s =
      (ok (patch existing), record s { tasks = Dict.put s.tasks id (patch existing) })

  unfoldable pub update_task :
      String → (Task S → Task S) → Store S → Result String (Task S) × Store S
  unfolding patch_task
  update_task id patch s = patch_task id patch (Dict.get s.tasks id) s

  -- the check and the write are one step, with no `await` between them
  transition :
      String
      → List ExecutionStatus
      → ExecutionStatus
      → ℕ
      → Option (Task S)
      → Store S
      → Result String (Task S) × Store S
  transition id from to now none s = (err id, s)
  transition id from to now (some existing) s =
      let updated = record existing { status = to; updated_at = now } in
      if includes_status from existing.status
      then (ok updated, record s { tasks = Dict.put s.tasks id updated })
      else (err id, s)

  unfoldable pub transition_task_status :
      String
      → List ExecutionStatus
      → ExecutionStatus
      → ℕ
      → Store S
      → Result String (Task S) × Store S
  unfolding transition
  transition_task_status id from to now s = transition id from to now (Dict.get s.tasks id) s

  -- task trees
  unfoldable pub save_task_tree : TaskTree → Store S → Result String TaskTree × Store S
  save_task_tree tree s =
      (ok tree, record s { task_trees = Dict.put s.task_trees tree.root_task_id tree })

  unfoldable pub get_task_tree : String → Store S → Result String TaskTree
  get_task_tree root s = found root (Dict.get s.task_trees root)

  patch_tree :
      String → (TaskTree → TaskTree) → Option TaskTree → Store S → Result String TaskTree × Store S
  patch_tree root patch none s = (err root, s)
  patch_tree root patch (some existing) s =
      (ok (patch existing), record s { task_trees = Dict.put s.task_trees root (patch existing) })

  unfoldable pub update_task_tree :
      String → (TaskTree → TaskTree) → Store S → Result String TaskTree × Store S
  unfolding patch_tree
  update_task_tree root patch s = patch_tree root patch (Dict.get s.task_trees root) s

  -- executions
  unfoldable pub save_execution : Execution → Store S → Result String Execution × Store S
  save_execution execution s =
      (ok execution, record s { executions = Dict.put s.executions execution.id execution })

  patch_execution :
      String
      → (Execution → Execution)
      → Option Execution
      → Store S
      → Result String Execution × Store S
  patch_execution id patch none s = (err id, s)
  patch_execution id patch (some existing) s =
      (ok (patch existing), record s { executions = Dict.put s.executions id (patch existing) })

  unfoldable pub update_execution :
      String → (Execution → Execution) → Store S → Result String Execution × Store S
  unfolding patch_execution
  update_execution id patch s = patch_execution id patch (Dict.get s.executions id) s

  -- checkpoints: appended in order, the latest is the last
  unfoldable pub save_checkpoint : Checkpoint S → Store S → Result String (Checkpoint S) × Store S
  save_checkpoint c s =
      let existing = or_else (Dict.get s.checkpoints_by_task c.task_id) [] in
      (
        ok c,
        record s {
          checkpoints_by_task = Dict.put s.checkpoints_by_task c.task_id (existing ++ c ∷ []);
        },
      )

  unfoldable pub get_latest_checkpoint : String → Store S → Option (Checkpoint S)
  get_latest_checkpoint task_id s = get_last? (or_else (Dict.get s.checkpoints_by_task task_id) [])

  -- approvals
  unfoldable pub save_approval_request :
      ApprovalRequest → Store S → Result String ApprovalRequest × Store S
  save_approval_request req s = (ok req, record s { approvals = Dict.put s.approvals req.id req })

  unfoldable pub get_approval_request : String → Store S → Result String ApprovalRequest
  get_approval_request id s = found id (Dict.get s.approvals id)

  unfoldable pub patch_approval :
      String
      → (ApprovalRequest → ApprovalRequest)
      → Option ApprovalRequest
      → Store S
      → Result String ApprovalRequest × Store S
  patch_approval id patch none s = (err id, s)
  patch_approval id patch (some existing) s =
      (ok (patch existing), record s { approvals = Dict.put s.approvals id (patch existing) })

  unfoldable pub update_approval_request :
      String
      → (ApprovalRequest → ApprovalRequest)
      → Store S
      → Result String ApprovalRequest × Store S
  unfolding patch_approval
  update_approval_request id patch s = patch_approval id patch (Dict.get s.approvals id) s

  unfoldable pub get_approvals_by_task : String → Store S → List ApprovalRequest
  get_approvals_by_task task_id s = filter (λ a. a.task_id == task_id) (Dict.values s.approvals)

  -- escalations
  unfoldable pub save_escalation :
      EscalationRecord → Store S → Result String EscalationRecord × Store S
  save_escalation r s =
      let existing = or_else (Dict.get s.escalations_by_task r.task_id) [] in
      (
        ok r,
        record s {
          escalations_by_task = Dict.put s.escalations_by_task r.task_id (existing ++ r ∷ []);
        },
      )

  unfoldable pub get_escalations_by_task : String → Store S → List EscalationRecord
  get_escalations_by_task task_id s = or_else (Dict.get s.escalations_by_task task_id) []

  -- the messages of a task, in the order in which they came
  unfoldable pub save_message : Message → Store S → Result String Message × Store S
  save_message m s =
      let existing = or_else (Dict.get s.messages_by_task m.task_id) [] in
      (
        ok m,
        record s { messages_by_task = Dict.put s.messages_by_task m.task_id (existing ++ m ∷ []) },
      )

  unfoldable pub get_messages : String → Store S → List Message
  get_messages task_id s = or_else (Dict.get s.messages_by_task task_id) []

  -- cleanup
  unfoldable pub delete_task : String → Store S → Result String (Unit {0}) × Store S
  unfolding keep_executions
  delete_task id s = (
    if is_some (Dict.get s.tasks id) then ok tt else err id,
    record s {
      tasks = Dict.remove s.tasks id;
      checkpoints_by_task = Dict.remove s.checkpoints_by_task id;
      escalations_by_task = Dict.remove s.escalations_by_task id;
      messages_by_task = Dict.remove s.messages_by_task id;
      executions = keep_executions id s.executions;
    },
  )
