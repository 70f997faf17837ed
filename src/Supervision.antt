-- ===== src/Supervision.antt =====
-- packages/delta/src/supervision: the slots of a task tree, the recovery strategies, and the scope
-- of a subtask's budget. The cascading abort stands with the store, in Store/Abort.
pub mod Slots
pub mod Scope
use delta_agents.Common.{
  ℕ, min, String, Bool, true, false, not, ◌&&◌, Option, none, some, List, [], ◌∷◌, ◌++◌, ◌==◌, leb,
  ltb, length, without, if◌then◌else◌,
}
use delta_agents.Cost.{Cost, remaining_cost}
use delta_agents.Types.{TaskTree, Strategy, SupervisionPolicy}

-- task-tree.ts
pub data SlotResult : Type 0 where
  granted queued : TaskTree → SlotResult

abbrev pub slot_tree : SlotResult → TaskTree
slot_tree (granted t) = t
slot_tree (queued t) = t

unfoldable pub request_slot : TaskTree → String → SlotResult
request_slot tree subtask_id =
    if ltb (length tree.active_children) tree.max_concurrency
    then granted (record tree { active_children = tree.active_children ++ subtask_id ∷ [] })
    else queued (record tree { queued_children = tree.queued_children ++ subtask_id ∷ [] })

pub record ReleaseResult : Type 0 where
  pub tree : TaskTree
  pub promoted : Option String

promote : TaskTree → List String → List String → ReleaseResult
promote tree active [] = record { tree = record tree { active_children = active }; promoted = none }
promote tree active (head ∷ remaining) = record {
  tree = record tree { active_children = active ++ head ∷ []; queued_children = remaining };
  promoted = some head;
}

unfoldable pub release_slot : TaskTree → String → ReleaseResult
unfolding promote
release_slot tree subtask_id =
    promote tree (without tree.active_children subtask_id) tree.queued_children

-- apply-strategy.ts
pub data SupervisionDecision : Type 0 where
  retry restart escalate abort_subtree abort_tree : SupervisionDecision
  resume : String → SupervisionDecision
  give_up : ℕ → ℕ → SupervisionDecision

abbrev pub retriable : Strategy → Bool
retriable Strategy.retry = true
retriable Strategy.restart = true
retriable Strategy.resume = true
retriable _ = false

decide_strategy : Strategy → Option String → SupervisionDecision
decide_strategy Strategy.retry checkpoint = SupervisionDecision.retry
decide_strategy Strategy.restart checkpoint = SupervisionDecision.restart
decide_strategy Strategy.resume none = SupervisionDecision.restart
decide_strategy Strategy.resume (some checkpoint_id) = SupervisionDecision.resume checkpoint_id
decide_strategy Strategy.escalate checkpoint = SupervisionDecision.escalate
decide_strategy Strategy.abort_subtree checkpoint = SupervisionDecision.abort_subtree
decide_strategy Strategy.abort_tree checkpoint = SupervisionDecision.abort_tree

unfoldable pub apply_strategy : SupervisionPolicy → ℕ → Option String → SupervisionDecision
unfolding decide_strategy
apply_strategy policy retry_count checkpoint_id =
    if retriable policy.strategy && leb policy.max_retries retry_count
    then give_up policy.max_retries retry_count
    else decide_strategy policy.strategy checkpoint_id

-- scope.ts
unfoldable pub enforce_subtask_scope : Cost → Cost → Cost → Cost
enforce_subtask_scope requested parent_budget parent_spent =
    let remaining = remaining_cost parent_budget parent_spent in
    record {
      tokens = min requested.tokens remaining.tokens;
      duration_ms = min requested.duration_ms remaining.duration_ms;
      memory = none;
      latency = none;
      money = none;
      content = none;
    }

unfoldable pub is_within_parent_scope : Cost → Cost → Cost → Bool
is_within_parent_scope proposed parent_budget parent_spent =
    let remaining = remaining_cost parent_budget parent_spent in
    leb proposed.tokens remaining.tokens && leb proposed.duration_ms remaining.duration_ms
