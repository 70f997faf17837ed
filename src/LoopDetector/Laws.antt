-- ===== src/LoopDetector/Laws.antt =====
-- What the detector remembers (engine/loop-detector.ts), against the history of a run: a list of events,
-- the latest first, from which the counts, the spend and the last call are read off directly.
use delta_agents.Common.{
  ℕ, ◌+◌, String, ◌≡◌, refl, Bool, false, ◌&&◌, Option, none, some, List, [], ◌∷◌, ◌==◌, eq_iff,
  arith, leb, or_else, if◌then◌else◌, Option-cases, Bool-cases, inl, inr,
}
use delta_agents.Common.Dict
use delta_agents.Common.Dict.{get-put}
use delta_agents.Cost.{Cost, is_over_budget}
use delta_agents.LoopDetector.{
  AgentActivityTracker, Scope, phase, task, LoopDetector, new_tracker, created, tracker_for,
  counts_of, check_max_calls, next_spend, check_budget, record_tool_call, record_tool_spend,
  reset_phase, reset_task, bump,
}

pub data Event : Type 0 where
  called : (agent tool : String) (now : ℕ) → Event
  paid : (agent tool : String) (cost : Cost) → Event
  phase_changed task_settled : String → Event

abbrev run_event : Event → LoopDetector → LoopDetector
run_event (called agent tool now) d = record_tool_call agent tool now d
run_event (paid agent tool cost) d = record_tool_spend agent tool cost d
run_event (phase_changed agent) d = reset_phase agent d
run_event (task_settled agent) d = reset_task agent d

pub run_history : List Event → LoopDetector
run_history [] = []
run_history (e ∷ h) = let d = run_history h in run_event e d

-- whether the event starts the count of a scope anew
abbrev resets : Scope → String → Event → Bool
resets phase agent (phase_changed a) = a == agent
resets _ agent (task_settled a) = a == agent
resets _ agent _ = false

abbrev counts : String → String → Event → ℕ
counts agent tool (called a t now) = if a == agent && t == tool then 1 else 0
counts agent tool _ = 0

-- the calls of the tool by the agent since the scope was last reset
pub calls_since : Scope → String → String → List Event → ℕ
calls_since scope agent tool [] = 0
calls_since scope agent tool (e ∷ h) =
    let before = calls_since scope agent tool h in
    if resets scope agent e then 0 else before + counts agent tool e

current : LoopDetector → String → AgentActivityTracker
current d agent = or_else (Dict.get d agent) new_tracker

tracker_for-current :
    (d : LoopDetector) (agent : String) → (tracker_for d agent).0 ≡ current d agent
unfolding tracker_for created current
tracker_for-current d agent = elim (Option-cases (Dict.get d agent)) [
  | inl e ↦ rw e refl
  | inr (t, e) ↦ rw e refl
]

-- a tracker that is made on the way is the one that was read before
current-tracker_for :
    (d : LoopDetector) (a agent : String) → current (tracker_for d a).1 agent ≡ current d agent
unfolding tracker_for created current
current-tracker_for d a agent = elim (Option-cases (Dict.get d a)) [
  | inl e ↦ rw e (ground (arith, get-put d a agent new_tracker, eq_iff a agent))
  | inr (t, e) ↦ rw e refl
]

current-put :
    (d : LoopDetector) (a agent : String) (t : AgentActivityTracker)
    → current (Dict.put (tracker_for d a).1 a t) agent ≡ (if a == agent then t else current d agent)
unfolding current
current-put d a agent t =
    ground (arith, get-put (tracker_for d a).1 a agent t, current-tracker_for d a agent)

get-bump :
    (m : Dict.Dict ℕ) (t tool : String)
    → or_else (Dict.get (bump m t) tool) 0
      ≡ or_else (Dict.get m tool) 0 + (if t == tool then 1 else 0)
get-bump m t tool = ground (arith, get-put m t tool (or_else (Dict.get m t) 0 + 1), eq_iff t tool)

pub count : Scope → String → String → LoopDetector → ℕ
unfolding current
count scope agent tool d = or_else (Dict.get (counts_of scope (current d agent)) tool) 0

count-run_event :
    (scope : Scope) (agent tool : String) (e : Event) (d : LoopDetector)
    → count scope agent tool (run_event e d)
      ≡ (if resets scope agent e then 0 else count scope agent tool d + counts agent tool e)
unfolding count Dict.get record_tool_call record_tool_spend reset_phase reset_task
count-run_event phase agent tool (called a t now) d =
    rw (current-put, tracker_for-current)
      (ground (arith, eq_iff a agent, get-bump (current d agent).phase_tool_counts t tool))
count-run_event task agent tool (called a t now) d =
    rw (current-put, tracker_for-current)
      (ground (arith, eq_iff a agent, get-bump (current d agent).task_tool_counts t tool))
count-run_event phase agent tool (paid a t cost) d =
    rw (current-put, tracker_for-current) (ground (arith, eq_iff a agent))
count-run_event task agent tool (paid a t cost) d =
    rw (current-put, tracker_for-current) (ground (arith, eq_iff a agent))
count-run_event phase agent tool (phase_changed a) d =
    rw (current-put, tracker_for-current)
      (elim (Bool-cases (a == agent)) [ inl e ↦ rw e refl | inr e ↦ rw e (omega arith) ])
count-run_event task agent tool (phase_changed a) d =
    rw (current-put, tracker_for-current) (ground (arith, eq_iff a agent))
count-run_event phase agent tool (task_settled a) d = rw current-put (ground arith)
count-run_event task agent tool (task_settled a) d = rw current-put (ground arith)

count-run_history :
    (scope : Scope) (agent tool : String) (h : List Event)
    → count scope agent tool (run_history h) ≡ calls_since scope agent tool h
unfolding run_history calls_since count current Dict.get
count-run_history phase agent tool [] = refl
count-run_history task agent tool [] = refl
count-run_history scope agent tool (e ∷ h) = ground (
  arith,
  count-run_event scope agent tool e (run_history h),
  count-run_history scope agent tool h,
)

pub spend : String → String → LoopDetector → Option Cost
unfolding current
spend agent tool d = Dict.get (current d agent).tool_spend tool

-- what the agent has paid for the tool since its task was last settled
pub spend_since : String → String → List Event → Option Cost
unfolding next_spend
spend_since agent tool [] = none
spend_since agent tool (paid a t cost ∷ h) =
    let before = spend_since agent tool h in
    if a == agent && t == tool then some (next_spend before cost) else before
spend_since agent tool (task_settled a ∷ h) =
    let before = spend_since agent tool h in if a == agent then none else before
spend_since agent tool (_ ∷ h) = spend_since agent tool h

spend-run_history :
    (agent tool : String) (h : List Event)
    → spend agent tool (run_history h) ≡ spend_since agent tool h
unfolding run_history spend_since spend current Dict.get record_tool_call record_tool_spend
    reset_phase reset_task
spend-run_history agent tool [] = refl
spend-run_history agent tool (paid a t cost ∷ h) =
    let d = run_history h in
    let before = spend-run_history agent tool h in
    rw (current-put, tracker_for-current)
      (ground (
        arith,
        eq_iff a agent,
        eq_iff t tool,
        get-put (current d a).tool_spend t tool
            (next_spend (Dict.get (current d a).tool_spend t) cost),
      ))
spend-run_history agent tool (task_settled a ∷ h) =
    let before = spend-run_history agent tool h in
    rw current-put (elim (Bool-cases (a == agent)) [ inl e ↦ rw e refl | inr e ↦ rw e before ])
spend-run_history agent tool (called a t now ∷ h) =
    let before = spend-run_history agent tool h in
    rw (current-put, tracker_for-current) (ground (arith, eq_iff a agent))
spend-run_history agent tool (phase_changed a ∷ h) =
    let before = spend-run_history agent tool h in
    rw (current-put, tracker_for-current) (ground (arith, eq_iff a agent))

-- After any history of calls, payments and resets, a call is blocked by its cap exactly if the calls of
-- the tool by the agent since the scope was last reset have reached the cap, and by its budget exactly
-- if what the agent paid for the tool since its task was last settled, with the cost of this call, is
-- over the budget.
pub run_history-checks :
    (h : List Event) (agent tool : String) (max_calls : ℕ) (scope : Scope) (cost budget : Cost)
    → ((check_max_calls agent tool max_calls scope (run_history h)).0
        ≡ leb max_calls (calls_since scope agent tool h))
      × ((check_budget agent tool cost budget (run_history h)).0
          ≡ is_over_budget (next_spend (spend_since agent tool h) cost) budget)
unfolding check_max_calls check_budget count spend
run_history-checks h agent tool max_calls scope cost budget =
    let calls = count-run_history scope agent tool h in
    let paid_so_far = spend-run_history agent tool h in
    rw (tracker_for-current, calls, paid_so_far) (refl, refl)
