-- ===== src/Cleanup/Retention.antt =====
-- What a cleanup removes and what it keeps (engine/cleanup.ts).
use delta_agents.Common.{
  ℕ, ◌-◌, String, ◌≡◌, refl, ap, ◌∙◌, Bool, true, false, Option, none, some, List, [], ◌∷◌, ◌==◌,
  ◌&&◌, ◌||◌, arith, sym, Bool-cases, Option-cases, inl, inr, eq_iff, filter, ltb, if◌then◌else◌,
}
use delta_agents.Common.Dict
use delta_agents.Common.Dict.{Dict, get-remove}
use delta_agents.State.{Task}
use delta_agents.Store.{Store, includes_status, delete_task}
use delta_agents.Store.Mailbox.{delete_messages}
use delta_agents.Store.Queries.{get_task_ids, get_tasks_older_than}
use delta_agents.Cache.{Cache}
use delta_agents.Cleanup.{
  Readings, CleanupOptions, prunable_statuses, after_delete, eviction_pass, prune_tasks,
  prune_messages, task_pass, message_pass, run_cleanup,
}

module _ {S : Type 0} where
  -- every task is stored once, under its id
  abbrev pub IsKeyed : Dict (Task S) → Type 0
  IsKeyed [] = Unit {0}
  IsKeyed ((k, t) ∷ m) = (t.id ≡ k) × (Dict.get m k ≡ none) × IsKeyed m

  holds : (Task S → Bool) → Option (Task S) → Bool
  holds p none = false
  holds p (some t) = p t

  named : String → List (Task S) → Bool
  named id [] = false
  named id (t ∷ ts) = (t.id == id) || named id ts

  -- the scan finds the id of a task exactly where the task passes the test
  named-filter :
      (p : Task S → Bool) (id : String) (m : Dict (Task S))
      → IsKeyed m
      → named id (filter p (Dict.values m)) ≡ holds p (Dict.get m id)
  unfolding named filter Dict.values Dict.get holds
  named-filter p id [] h = refl
  named-filter p id ((k, t) ∷ m) (same, absent, h) =
      let rest = named-filter p id m h in
      let at_key : (k == id) ≡ true → holds p (Dict.get m id) ≡ false =
        λ e. rw (sym ((eq_iff k id).0 e), absent) refl in
      elim (Bool-cases (p t)) [
        | inl old ↦ rw old (ground (arith, rest, eq_iff k id, eq_iff t.id id, same))
        | inr young ↦ rw young (elim (Bool-cases (k == id)) [
          | inl here ↦ rw (here, young) (rest ∙ at_key here)
          | inr other ↦ rw other rest
        ])
      ]

  -- the tasks that a retention of `r` milliseconds ends at time `t`
  unfoldable pub is_outdated : Option ℕ → ℕ → Task S → Bool
  is_outdated none t task = false
  is_outdated (some r) t task =
      includes_status prunable_statuses task.status && ltb task.updated_at (t - r)

  -- what is left of a task
  unfoldable pub remainder : Option ℕ → ℕ → Option (Task S) → Option (Task S)
  remainder retention t none = none
  remainder retention t (some task) = if is_outdated retention t task then none else some task

  -- two stores with the same memories and the same approval requests
  abbrev Beside : Store S → Store S → Type 0
  Beside s s' = (s'.memories_by_agent ≡ s.memories_by_agent) × (s'.approvals ≡ s.approvals)

  prune_messages-tasks :
      (ids : List String) (older_than : ℕ) (s : Store S)
      → let s' = prune_messages ids older_than s in (s'.tasks ≡ s.tasks) × Beside s s'
  unfolding prune_messages delete_messages
  prune_messages-tasks [] older_than s = (refl, (refl, refl))
  prune_messages-tasks (id ∷ ids) older_than s =
      prune_messages-tasks ids older_than (delete_messages id (some older_than) s).1

  message_pass-tasks :
      (retention : Option ℕ) (t : ℕ) (s : Store S)
      → let s' = message_pass retention t s in (s'.tasks ≡ s.tasks) × Beside s s'
  unfolding message_pass
  message_pass-tasks none t s = (refl, (refl, refl))
  message_pass-tasks (some r) t s = prune_messages-tasks (get_task_ids s) (t - r) s

module _ {S V : Type 0} (starts_with : String → String → Bool) where
  get-prune_tasks :
      (ts : List (Task S)) (c : Cache V) (s : Store S) (id : String)
      → Dict.get (prune_tasks starts_with ts (c, s)).1.tasks id
        ≡ (if named id ts then none else Dict.get s.tasks id)
  unfolding prune_tasks named delete_task
  get-prune_tasks [] c s id = refl
  get-prune_tasks (t ∷ ts) c s id =
      let (result, s') = delete_task t.id s in
      let rest = get-prune_tasks ts (after_delete starts_with result t c) s' id in
      let removed = get-remove s.tasks t.id id in ground (arith, rest, removed)

  prune_tasks-Beside :
      (ts : List (Task S)) (c : Cache V) (s : Store S)
      → Beside s (prune_tasks starts_with ts (c, s)).1
  unfolding prune_tasks delete_task
  prune_tasks-Beside [] c s = (refl, refl)
  prune_tasks-Beside (t ∷ ts) c s =
      let (result, s') = delete_task t.id s in
      prune_tasks-Beside ts (after_delete starts_with result t c) s'

  task_pass-remainder :
      (retention : Option ℕ) (t : ℕ) (c : Cache V) (s : Store S) (id : String)
      → IsKeyed s.tasks
      → let s' = (task_pass starts_with retention t (c, s)).1 in
        (Dict.get s'.tasks id ≡ remainder retention t (Dict.get s.tasks id)) × Beside s s'
  unfolding task_pass get_tasks_older_than remainder is_outdated holds
  task_pass-remainder none t c s id h = (
    elim (Option-cases (Dict.get s.tasks id)) [ inl e ↦ rw e refl | inr (x, e) ↦ rw e refl ],
    (refl, refl),
  )
  task_pass-remainder (some r) t c s id h =
      let ts = get_tasks_older_than prunable_statuses (t - r) s in
      let scanned = named-filter (is_outdated (some r) t) id s.tasks h in
      (
        get-prune_tasks ts c s id ∙ elim (Option-cases (Dict.get s.tasks id)) [
          | inl e ↦ ground (arith, scanned, e)
          | inr (x, e) ↦ ground (arith, scanned, e)
        ],
        prune_tasks-Beside ts c s,
      )

  -- Where every task is stored once and under its id, a cleanup removes exactly the tasks that have ended
  -- and were updated before the retention time, and none where no retention is asked for. The memories and the approval requests of all tasks stay.
  pub get-run_cleanup :
      (at : Readings) (options : CleanupOptions) (c : Cache V) (s : Store S) (id : String)
      → IsKeyed s.tasks
      → let s' = (run_cleanup starts_with at options (c, s)).1 in
        (Dict.get s'.tasks id
          ≡ remainder options.task_retention_ms at.at_tasks (Dict.get s.tasks id))
        × (s'.memories_by_agent ≡ s.memories_by_agent)
        × (s'.approvals ≡ s.approvals)
  unfolding run_cleanup
  get-run_cleanup at options c s id h =
      let c1 = eviction_pass options.evict_cache at.at_eviction c in
      let (tasks, (memories, approvals)) =
        task_pass-remainder options.task_retention_ms at.at_tasks c1 s id h in
      let s2 = (task_pass starts_with options.task_retention_ms at.at_tasks (c1, s)).1 in
      let (same, (memories2, approvals2)) =
        message_pass-tasks options.message_retention_ms at.at_messages s2 in
      (ap (λ m. Dict.get m id) same ∙ tasks, memories2 ∙ memories, approvals2 ∙ approvals)
