-- ===== src/LoopDetector.antt =====
-- packages/delta/src/engine/loop-detector.ts: the cooldowns, call caps and tool budgets of the agents of
-- one scheduler run. A check is `true` where the program returns a reason to block, and creates the
-- tracker of its agent as the program does. The clock's reading is an argument.
pub mod Laws
use delta_agents.Common.{
  ℕ, ◌+◌, String, Bool, true, false, not, ◌&&◌, Option, none, some, List, [], ◌∷◌, ◌==◌, ltb, leb,
  or_else, if◌then◌else◌,
}
use delta_agents.Common.Dict
use delta_agents.Common.Dict.{Dict}
use delta_agents.Cost.{Cost, add_costs, is_over_budget}

pub record Call : Type 0 where
  pub name : String
  pub timestamp : ℕ

pub record AgentActivityTracker : Type 0 where
  pub last_tool_call : Option Call
  pub last_action_call : Option Call
  pub phase_tool_counts : Dict ℕ
  pub task_tool_counts : Dict ℕ
  pub tool_spend : Dict Cost

pub data Scope : Type 0 where
  phase task : Scope

abbrev pub LoopDetector : Type 0
LoopDetector = Dict AgentActivityTracker

abbrev pub new_tracker : AgentActivityTracker
new_tracker = record {
  last_tool_call = none;
  last_action_call = none;
  phase_tool_counts = [];
  task_tool_counts = [];
  tool_spend = [];
}

created : Option AgentActivityTracker → LoopDetector → String → AgentActivityTracker × LoopDetector
created (some existing) d agent = (existing, d)
created none d agent = (new_tracker, Dict.put d agent new_tracker)

unfoldable pub tracker_for : LoopDetector → String → AgentActivityTracker × LoopDetector
unfolding created
tracker_for d agent = created (Dict.get d agent) d agent

cooling : Option Call → String → ℕ → ℕ → Bool
cooling none tool cooldown_ms now = false
cooling (some last) tool cooldown_ms now =
    last.name == tool && ltb now (last.timestamp + cooldown_ms)

pub check_tool_cooldown : String → String → ℕ → ℕ → LoopDetector → Bool × LoopDetector
unfolding cooling
check_tool_cooldown agent tool cooldown_ms now d =
    let (tracker, d') = tracker_for d agent in
    (cooling tracker.last_tool_call tool cooldown_ms now, d')

abbrev pub counts_of : Scope → AgentActivityTracker → Dict ℕ
counts_of phase tracker = tracker.phase_tool_counts
counts_of task tracker = tracker.task_tool_counts

pub check_max_calls : String → String → ℕ → Scope → LoopDetector → Bool × LoopDetector
check_max_calls agent tool max_calls scope d =
    let (tracker, d') = tracker_for d agent in
    let current = or_else (Dict.get (counts_of scope tracker) tool) 0 in (leb max_calls current, d')

-- the spend that the call would bring
pub next_spend : Option Cost → Cost → Cost
next_spend none cost = cost
next_spend (some previous) cost = add_costs previous cost

pub check_budget : String → String → Cost → Cost → LoopDetector → Bool × LoopDetector
check_budget agent tool cost budget d =
    let (tracker, d') = tracker_for d agent in
    let would_be = next_spend (Dict.get tracker.tool_spend tool) cost in
    (is_over_budget would_be budget, d')

abbrev pub bump : Dict ℕ → String → Dict ℕ
bump counts tool = Dict.put counts tool (or_else (Dict.get counts tool) 0 + 1)

pub record_tool_call : String → String → ℕ → LoopDetector → LoopDetector
record_tool_call agent tool now d =
    let (tracker, d') = tracker_for d agent in
    Dict.put d' agent (record tracker {
      last_tool_call = some (record { name = tool; timestamp = now });
      phase_tool_counts = bump tracker.phase_tool_counts tool;
      task_tool_counts = bump tracker.task_tool_counts tool;
    })

pub record_tool_spend : String → String → Cost → LoopDetector → LoopDetector
unfolding next_spend
record_tool_spend agent tool cost d =
    let (tracker, d') = tracker_for d agent in
    let next = next_spend (Dict.get tracker.tool_spend tool) cost in
    Dict.put d' agent (record tracker { tool_spend = Dict.put tracker.tool_spend tool next })

unfoldable pub reset_phase : String → LoopDetector → LoopDetector
reset_phase agent d =
    let (tracker, d') = tracker_for d agent in
    Dict.put d' agent (record tracker { phase_tool_counts = [] })

pub reset_task : String → LoopDetector → LoopDetector
reset_task agent d = let (tracker, d') = tracker_for d agent in Dict.put d' agent new_tracker
