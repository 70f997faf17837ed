-- ===== src/Tests/Storage.antt =====
-- The theorems on the store, the supervision of a tree, scopes and retries, at concrete inputs.
use delta_agents.Common.{
  List, ℕ, ◌<◌, ◌≤◌, String, ◌≡◌, refl, true, false, none, some, [], ◌∷◌, zero, suc, ◌++◌, Result,
  ok, err, arith, includes, without, length,
}
use delta_agents.Common.Dict
use delta_agents.Cost.{add_costs, is_over_budget, remaining_cost}
use delta_agents.State.{Task}
use delta_agents.Store.{Execution}
use delta_agents.Types.{running, completed}
use delta_agents.Store.{Checkpoint, get_task_tree}
use delta_agents.Store.Abort.{
  abort_all, abort_entire_tree, AbortedExactly, clear_tree, abort_entire_tree_lem,
}
use delta_agents.Store.Abort.Halting.{HaltsOrEnds, abort_all_halts}
use delta_agents.Supervision.{
  slot_tree, request_slot, release_slot, enforce_subtask_scope, is_within_parent_scope,
}
use delta_agents.Supervision.Slots.{
  line, started, IsValid, request_slot-IsValid, release_slot-IsValid, release_slot-overflow,
}
use delta_agents.Supervision.Scope.{enforce_subtask_scope-IsWithin, enforce_subtask_scope-unlimited}
use delta_agents.Scheduler.{Parent, Event, delegated, settled}
use delta_agents.Workflow.Retry.{retry_with_jitter}
use delta_agents.Workflow.Retry.Attempts.{
  WhenOk, counting, waiting, CallsWithin, retry_with_jitter-calls,
}
use delta_agents.Tests.Data.{tokens_and_time, snap, tree, store}

-- slots

tree-IsValid : IsValid tree
unfolding includes
tree-IsValid = record {
  distinct = (refl, (refl, tt));
  bounded = omega arith;
  busy = λ waiting. refl;
}

request_slot-IsValid_example :
    IsValid (slot_tree (request_slot tree "t4"))
    × (line (slot_tree (request_slot tree "t4")) ≡ line tree ++ "t4" ∷ [])
unfolding includes
request_slot-IsValid_example = request_slot-IsValid tree "t4" tree-IsValid refl

release_slot-IsValid_example :
    let r = release_slot tree "t2" in
    IsValid r.tree
    × (line r.tree ≡ without (line tree) "t2")
    × (r.promoted ≡ some "t3")
    × (r.tree.active_children ≡ without tree.active_children "t2" ++ started r.promoted)
    × (tree.queued_children ≡ started r.promoted ++ r.tree.queued_children)
unfolding includes
release_slot-IsValid_example = release_slot-IsValid tree "t2" tree-IsValid refl

release_slot-overflow_example :
    tree.max_concurrency < length (release_slot tree "t9").tree.active_children
unfolding includes
release_slot-overflow_example = release_slot-overflow tree "t9" "t3" [] refl refl refl

-- scopes

enforce_subtask_scope-IsWithin_example :
    (is_within_parent_scope
        (enforce_subtask_scope
          (tokens_and_time 90 90)
          (tokens_and_time 50 50)
          (tokens_and_time 20 20))
        (tokens_and_time 50 50)
        (tokens_and_time 20 20)
      ≡ true)
    × ((add_costs (tokens_and_time 20 20) (tokens_and_time 30 5)).tokens ≤ 50)
    × ((add_costs (tokens_and_time 20 20) (tokens_and_time 30 5)).duration_ms ≤ 50)
unfolding is_over_budget enforce_subtask_scope remaining_cost
enforce_subtask_scope-IsWithin_example =
    enforce_subtask_scope-IsWithin (tokens_and_time 90 90) (tokens_and_time 50 50)
      (tokens_and_time 20 20) (tokens_and_time 30 5) (omega arith) (omega arith) refl

enforce_subtask_scope-unlimited_example :
    is_over_budget
      (record (tokens_and_time 30 5) { memory = some 1000000 })
      (enforce_subtask_scope
        (tokens_and_time 90 90)
        (record (tokens_and_time 50 50) { memory = some 64 })
        (tokens_and_time 20 20))
    ≡ false
unfolding enforce_subtask_scope remaining_cost
enforce_subtask_scope-unlimited_example =
    enforce_subtask_scope-unlimited (tokens_and_time 90 90)
      (record (tokens_and_time 50 50) { memory = some 64 }) (tokens_and_time 20 20)
      (record (tokens_and_time 30 5) { memory = some 1000000 }) (omega arith) (omega arith)

-- the store

abbrev checkpoint : Checkpoint ℕ
checkpoint = record {
  id = "c1";
  task_id = "t1";
  phase = some "triage";
  state = snap;
  created_at = 5;
}

abbrev renamed : Task ℕ → Task ℕ
renamed t = record t { goal = "return" }

abbrev execution : Execution
execution = record {
  id = "e1";
  task_id = "t1";
  action = "lookup";
  started_at = 3;
  ended_at = none;
  status = running;
  cost = tokens_and_time 0 0;
}

abbrev finish : Execution → Execution
finish x = record x { status = completed; ended_at = some 9 }

-- aborts

abbrev clock : String → ℕ
clock id = 42

abort_entire_tree_lem_example :
    ((abort_entire_tree clock "t1" store).0 ≡ ok tt)
    × AbortedExactly clock ("t1" ∷ "t2" ∷ "t3" ∷ []) store (abort_entire_tree clock "t1" store).1
    × (get_task_tree "t1" (abort_entire_tree clock "t1" store).1 ≡ ok (clear_tree tree))
unfolding get_task_tree Dict.get
abort_entire_tree_lem_example =
    abort_entire_tree_lem clock "t1" store tree refl (refl, (refl, (refl, tt)))

abort_all_halts_example :
    ((abort_all clock ("t1" ∷ "t9" ∷ "t2" ∷ []) store).1.task_trees ≡ store.task_trees)
    × HaltsOrEnds clock
        ("t1" ∷ "t9" ∷ "t2" ∷ [])
        store
        (abort_all clock ("t1" ∷ "t9" ∷ "t2" ∷ []) store)
abort_all_halts_example = abort_all_halts clock ("t1" ∷ "t9" ∷ "t2" ∷ []) store

-- retries: the third attempt succeeds

abbrev third : ℕ → Result String ℕ × ℕ
third zero = (err "again", 1)
third (suc zero) = (err "again", 2)
third (suc (suc n)) = (ok 7, suc (suc n))

abbrev backoff : ℕ → ℕ → ℕ
backoff attempt w = w

retry_with_jitter-calls_example :
    CallsWithin 0 5 (retry_with_jitter (counting third) (waiting backoff) 5 "none" (0, 0))
retry_with_jitter-calls_example = retry_with_jitter-calls third backoff 5 "none" 0

third_seven : (w : ℕ) → WhenOk {E = String} (λ (a : ℕ) (w : ℕ). a ≡ 7) (third w)
third_seven zero = tt
third_seven (suc zero) = tt
third_seven (suc (suc n)) = refl

-- a parent that delegates twice; the first child settles within its grant, the second beyond it

abbrev parent : Parent
parent = record { budget = tokens_and_time 100 100; spent = tokens_and_time 10 10; children = [] }

abbrev events : List Event
events =
    delegated (some (tokens_and_time 40 40))
    ∷ delegated none
    ∷ settled 1 (tokens_and_time 15 5)
    ∷ settled 0 (tokens_and_time 70 5)
    ∷ []
