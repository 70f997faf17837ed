-- ===== src/Cleanup.antt =====
-- packages/delta/src/engine/cleanup.ts over the store of ports/in-memory-store.ts, which has every
-- capability that a pass asks for. The log is left out. `starts_with prefix key` stands for JavaScript's
-- `startsWith`. Times are natural numbers: a threshold before the time 0 is 0, before which nothing is
-- either.
pub mod Retention
use Prim.Native.String as Texts
use delta_agents.Common.{
  ℕ, ◌-◌, String, Bool, true, false, Option, none, some, List, [], ◌∷◌, Result, ok, err, filter,
  if◌then◌else◌,
}
use delta_agents.Common.Dict
use delta_agents.Types.{ExecutionStatus}
use delta_agents.State.{Task}
use delta_agents.Store.{Store, delete_task}
use delta_agents.Store.Mailbox.{delete_messages}
use delta_agents.Store.Queries.{get_task_ids, get_tasks_older_than}
use delta_agents.Cache.{Cache, delete, evict_expired}

abbrev pub prunable_statuses : List ExecutionStatus
prunable_statuses =
    ExecutionStatus.completed ∷ ExecutionStatus.failed ∷ ExecutionStatus.aborted ∷ []

pub record CleanupOptions : Type 0 where
  pub task_retention_ms : Option ℕ
  pub message_retention_ms : Option ℕ
  pub evict_cache : Bool

-- the readings of the clock in the three passes
pub record Readings : Type 0 where
  pub at_eviction : ℕ
  pub at_tasks : ℕ
  pub at_messages : ℕ

unfoldable pub opportunistic_cleanup : {V : Type 0} → ℕ → Cache V → ℕ × Cache V
opportunistic_cleanup t c = evict_expired t c

eviction_pass : {V : Type 0} → Bool → ℕ → Cache V → Cache V
eviction_pass false t c = c
eviction_pass true t c = (evict_expired t c).1

delete_all : {V : Type 0} → List String → Cache V → Cache V
delete_all [] c = c
delete_all (k ∷ ks) c = delete_all ks (delete k c)

module _ {S : Type 0} where
  unfoldable pub prune_messages : List String → ℕ → Store S → Store S
  prune_messages [] older_than s = s
  prune_messages (id ∷ rest) older_than s =
      prune_messages rest older_than (delete_messages id (some older_than) s).1

  unfoldable pub message_pass : Option ℕ → ℕ → Store S → Store S
  message_pass none t s = s
  message_pass (some retention) t s = prune_messages (get_task_ids s) (t - retention) s

module _ {S V : Type 0} (starts_with : String → String → Bool) where
  -- the cached reads of a task that is gone, with every memory slice of its agent
  unfoldable pub invalidate : Task S → Cache V → Cache V
  unfolding delete_all
  invalidate task c =
      let c1 = delete (Texts.◌++◌ "task:" task.id) c in
      let c2 = delete (Texts.◌++◌ "checkpoint:" task.id) c1 in
      let memory_prefix = Texts.◌++◌ "memories:" (Texts.◌++◌ task.assigned_agent ":") in
      delete_all (filter (starts_with memory_prefix) (Dict.keys c2)) c2

  -- a failed deletion does not stop the others
  after_delete : Result String (Unit {0}) → Task S → Cache V → Cache V
  unfolding invalidate
  after_delete (err x) task c = c
  after_delete (ok done) task c = invalidate task c

  unfoldable pub prune_tasks : List (Task S) → Cache V × Store S → Cache V × Store S
  unfolding after_delete
  prune_tasks [] (c, s) = (c, s)
  prune_tasks (task ∷ rest) (c, s) =
      let (result, s') = delete_task task.id s in prune_tasks rest (after_delete result task c, s')

  unfoldable pub task_pass : Option ℕ → ℕ → Cache V × Store S → Cache V × Store S
  task_pass none t p = p
  task_pass (some retention) t (c, s) =
      prune_tasks (get_tasks_older_than prunable_statuses (t - retention) s) (c, s)

  -- no pass fails on this store, so that the result is always ok
  unfoldable pub run_cleanup : Readings → CleanupOptions → Cache V × Store S → Cache V × Store S
  unfolding eviction_pass
  run_cleanup at options (c, s) =
      let c1 = eviction_pass options.evict_cache at.at_eviction c in
      let (c2, s2) = task_pass options.task_retention_ms at.at_tasks (c1, s) in
      (c2, message_pass options.message_retention_ms at.at_messages s2)
