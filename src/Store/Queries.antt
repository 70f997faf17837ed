-- ===== src/Store/Queries.antt =====
-- packages/delta/src/ports/in-memory-store.ts: the queries on tasks, executions, approvals and
-- checkpoints, and the memories, commits and queues. `mentions notes text` stands for JavaScript's
-- case-insensitive substring test.
pub mod Results
use delta_agents.Common.{
  ℕ, zero, String, Bool, true, false, ◌&&◌, ◌||◌, Option, none, some, List, [], ◌∷◌, ◌++◌, ◌==◌,
  Result, ok, err, or_else, filter, ltb, if◌then◌else◌, sort, take, newest_first, get_elem?,
}
use delta_agents.Common.Dict
use delta_agents.Common.Dict.{Dict}
use delta_agents.Types.{
  ExecutionStatus, running, pending, ApprovalStatus, Memory, Commit, CommitQuery, Queue,
}
use delta_agents.State.{Task}
use delta_agents.Store.{
  Execution, Checkpoint, ApprovalRequest, Store, same_status, includes_status, found,
}

-- `limit !== undefined ? xs.slice(0, limit) : xs`
abbrev pub limited {ℓ} : {A : Type ℓ} → Option ℕ → List A → List A
limited none xs = xs
limited (some n) xs = take n xs

abbrev pub has_status : Option (List ExecutionStatus) → ExecutionStatus → Bool
has_status none status = true
has_status (some statuses) status = includes_status statuses status

abbrev pub is_pending : ApprovalStatus → Bool
is_pending ApprovalStatus.pending = true
is_pending _ = false

abbrev same_name : Option String → String → Bool
same_name none name = false
same_name (some n) name = n == name

flatten : Dict (List Commit) → List Commit
flatten [] = []
flatten ((agent, cs) ∷ rest) = cs ++ flatten rest

of_workflow : Option String → Commit → Bool
of_workflow none c = true
of_workflow (some name) c = same_name c.workflow_name name

noted : (String → String → Bool) → Option String → Option String → Bool
noted mentions none notes = true
noted mentions (some text) none = false
noted mentions (some text) (some notes) = mentions notes text

module _ {S : Type 0} where
  abbrev pub updated_first : List (Task S) → List (Task S)
  updated_first = newest_first (λ t. t.updated_at)

  pub get_latest_task_by_agent : String → Store S → Option (Task S)
  get_latest_task_by_agent agent_name s =
      get_elem? (updated_first (filter (λ t. t.assigned_agent == agent_name) (Dict.values s.tasks)))
        0

  pub get_active_tasks_by_agent : String → Store S → List (Task S)
  get_active_tasks_by_agent agent_name s =
      filter
        (λ t.
          t.assigned_agent == agent_name
          && (same_status t.status running || same_status t.status pending))
        (Dict.values s.tasks)

  unfoldable pub get_tasks_by_agent :
      String → Option (List ExecutionStatus) → Option ℕ → Store S → List (Task S)
  get_tasks_by_agent agent_name statuses limit s =
      let all = filter (λ (t : Task S). t.assigned_agent == agent_name) (Dict.values s.tasks) in
      limited limit (updated_first (filter (λ t. has_status statuses t.status) all))

  pub get_tasks_by_workflow :
      String → Option (List ExecutionStatus) → Option ℕ → Store S → List (Task S)
  get_tasks_by_workflow workflow_name statuses limit s =
      let all = filter (λ (t : Task S). same_name t.workflow workflow_name) (Dict.values s.tasks) in
      limited limit (updated_first (filter (λ t. has_status statuses t.status) all))

  -- earliest first
  pub get_checkpoints_by_task : String → Store S → List (Checkpoint S)
  get_checkpoints_by_task task_id s =
      sort (λ a b. ltb a.created_at b.created_at)
        (or_else (Dict.get s.checkpoints_by_task task_id) [])

  pub get_execution : String → Store S → Result String Execution
  get_execution id s = found id (Dict.get s.executions id)

  pub get_executions_by_task : String → Store S → List Execution
  get_executions_by_task task_id s = filter (λ e. e.task_id == task_id) (Dict.values s.executions)

  pub get_pending_approvals : String → Store S → List ApprovalRequest
  get_pending_approvals task_id s =
      filter (λ a. a.task_id == task_id && is_pending a.status) (Dict.values s.approvals)

  unfoldable pub get_tasks_older_than : List ExecutionStatus → ℕ → Store S → List (Task S)
  get_tasks_older_than statuses older_than s =
      filter (λ t. includes_status statuses t.status && ltb t.updated_at older_than)
        (Dict.values s.tasks)

  pub get_task_ids : Store S → List String
  get_task_ids s = Dict.keys s.tasks

  -- memories
  pub save_memory : Memory → Store S → Result String Memory × Store S
  save_memory m s =
      let existing = or_else (Dict.get s.memories_by_agent m.agent_name) [] in
      (
        ok m,
        record s {
          memories_by_agent = Dict.put s.memories_by_agent m.agent_name (existing ++ m ∷ []);
        },
      )

  pub get_memories_by_agent : String → Option ℕ → Store S → List Memory
  get_memories_by_agent agent_name limit s =
      limited limit
        (newest_first (λ m. m.created_at) (or_else (Dict.get s.memories_by_agent agent_name) []))

  -- commits
  pub save_commit : Commit → Store S → Result String Commit × Store S
  save_commit c s =
      let existing = or_else (Dict.get s.commits_by_agent c.agent_name) [] in
      (
        ok c,
        record s {
          commits_by_agent = Dict.put s.commits_by_agent c.agent_name (existing ++ c ∷ []);
        },
      )

  pub get_commits_by_agent : String → Option ℕ → Store S → List Commit
  get_commits_by_agent agent_name limit s =
      limited limit
        (newest_first (λ c. c.created_at) (or_else (Dict.get s.commits_by_agent agent_name) []))

  pub search_commits : (String → String → Bool) → CommitQuery → String → Store S → List Commit
  unfolding flatten of_workflow noted
  search_commits mentions query current_agent s =
      let scope =
        if query.all_agents
        then flatten s.commits_by_agent
        else or_else (Dict.get s.commits_by_agent current_agent) [] in
      let filtered =
        filter (λ c. of_workflow query.workflow_name c && noted mentions query.query c.notes)
          scope in
      take (or_else query.limit 20) (newest_first (λ c. c.created_at) filtered)

  -- queues
  pub save_queue : Queue → Store S → Result String Queue × Store S
  save_queue queue s = (ok queue, record s { queues = Dict.put s.queues queue.id queue })

  pub get_queue : String → Store S → Result String Queue
  get_queue id s = found id (Dict.get s.queues id)

  pub update_queue : String → (Queue → Queue) → Store S → Result String Queue × Store S
  update_queue id patch s = elim (Dict.get s.queues id) [
    | none ↦ (err id, s)
    | some existing ↦
        (ok (patch existing), record s { queues = Dict.put s.queues id (patch existing) })
  ]
