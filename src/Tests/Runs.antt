-- ===== src/Tests/Runs.antt =====
-- The theorems on the scheduler and the loop detector, at concrete inputs: an agent that delegates once
-- and then is done, over a world whose time is what is left of its patience.
use delta_agents.Common.{
  ℕ, ◌+◌, ◌-◌, String, ◌≡◌, refl, true, false, none, some, List, [], ◌∷◌, arith, ltb, leb,
  if◌then◌else◌, All, filter, Bool-cases, inl, inr,
}
use delta_agents.Common.Dict
use delta_agents.Cost.{is_over_budget, axis_over, money_over}
use delta_agents.Scores.Fixed.{fixed}
use delta_agents.Types.{ExecutionStatus}
use delta_agents.State.{Task, Snapshot, parent_over}
use delta_agents.Store.{get_task_tree, get_messages, update_task, patch_task}
use delta_agents.Execution.{Engine}
use delta_agents.LoopDetector.{LoopDetector, Scope, check_max_calls, check_budget, next_spend}
use delta_agents.LoopDetector.Laws.{
  Event, called, paid, phase_changed, run_history, calls_since, spend_since, run_history-checks,
}
use delta_agents.Scheduler.Runner.{
  DelegationRequest, StepOutcome, SendStatus, SendResult, said, Runner, make_runner,
}
use delta_agents.Scheduler.Run.{
  Runtime, Run, the_store, settle, settle_with, with_runners, set_status, with_store, read_clock,
  leave_tree, cascade,
}
use delta_agents.Scheduler.Run.Blocked.{AbortedIn, settle-unresumable}
use delta_agents.Scheduler.Loop.{
  all_settled, loop, pass, turn, turn_of, advance_by, take_step, refresh, follow, after_work,
  fresh_messages, is_fresh, same_phase, stepped_to, finish,
}
use delta_agents.Scheduler.Loop.Admission.{IsBounded}
use delta_agents.Scheduler.Driver.{
  root_result, result_of, start_run, rehydrate, reported_by, aggregate, judged, failed_children,
  blocked_children, child_result, pick, run_scheduler,
}
use delta_agents.Scheduler.Driver.Outcome.{IsDone, run_scheduler-ends, run_scheduler-completed}
use delta_agents.Tests.Data.{host, tokens_and_time, snap, task, tree, store, engine}

-- detector

abbrev history : List Event
history =
    called "support" "search" 30
    ∷ paid "support" "search" (tokens_and_time 40 5)
    ∷ called "support" "search" 20
    ∷ phase_changed "support"
    ∷ called "support" "search" 10
    ∷ []

run_history-checks_example :
    ((check_max_calls "support" "search" 2 Scope.phase (run_history history)).0
      ≡ leb 2 (calls_since Scope.phase "support" "search" history))
    × ((check_budget "support" "search"
          (tokens_and_time 1 1)
          (tokens_and_time 50 50)
          (run_history history)).0
        ≡ is_over_budget
            (next_spend (spend_since "support" "search" history) (tokens_and_time 1 1))
            (tokens_and_time 50 50))
run_history-checks_example =
    run_history-checks history "support" "search" 2 Scope.phase (tokens_and_time 1 1)
      (tokens_and_time 50 50)

-- scheduler

abbrev request : DelegationRequest
request = record { goal = "look it up"; agent_name = "support"; budget = none }

abbrev step :
    Task ℕ
    → String
    → Snapshot ℕ
    → ℕ
    → LoopDetector × Engine fixed host
    → StepOutcome ℕ × LoopDetector × Engine fixed host
step t a s n (d, e) =
    if ltb e.world 12
    then (StepOutcome.delegate s request, d, record e { world = e.world + 1 })
    else (StepOutcome.natural_done s, d, e)

abbrev runtime : Runtime fixed host
runtime = record {
  Agent = String;
  name_of = λ a. a;
  get_agent = λ name. some name;
  max_steps = 5;
  step_task = step;
}

abbrev patience : ℕ → ℕ
patience w = 20 - w

runtime-IsBounded : IsBounded runtime patience
runtime-IsBounded = record {
  steady = record { clock = λ w. omega arith; ids = λ prefix w. omega arith };
  trees = λ t a s n d e root. elim (Bool-cases (ltb e.world 12)) [
    | inl h ↦ rw h refl
    | inr h ↦ rw h refl
  ];
  spends = λ t a s n d e. elim (Bool-cases (ltb e.world 12)) [
    | inl h ↦ rw h (ground arith)
    | inr h ↦ rw h (omega arith)
  ];
}

abbrev bare : Engine fixed host
bare = record { store = record store { task_trees = [] }; world = 10 }

abbrev root : Runner ℕ String
root = make_runner (task "t1") "support" snap 5

run_scheduler-ends_example :
    (result : SendResult ℕ) × (end : Run fixed host runtime) × (run_scheduler runtime 100 root []
        bare
      ≡ some (result, end))
unfolding start_run make_runner get_task_tree Dict.get rehydrate
run_scheduler-ends_example =
    run_scheduler-ends runtime patience runtime-IsBounded 100 root [] bare (omega arith)

abbrev late : Engine fixed host
late = record bare { world = 20 }

abbrev ended : SendResult ℕ
ended = record { task_id = "t1"; status = SendStatus.completed; snapshot = snap; reason = none }

abbrev last : Run fixed host runtime
last = record {
  root_id = "t1";
  runners = record root { step = 1; settled = true; result = some ended } ∷ [];
  tree_initialized = false;
  detector = [];
  engine = record {
    store = record bare.store {
      tasks =
          ("t1", record (task "t1") { status = ExecutionStatus.completed; updated_at = 20 })
          ∷ ("t2", task "t2")
          ∷ ("t3", task "t3")
          ∷ ("t4", task "t4")
          ∷ [];
    };
    world = 21;
  };
}

finishes : run_scheduler runtime 2 root [] late ≡ some (ended, last)
unfolding run_scheduler reported_by start_run make_runner get_task_tree Dict.get rehydrate loop
    all_settled pass turn turn_of advance_by take_step refresh follow after_work fresh_messages
    is_fresh get_messages filter parent_over axis_over money_over patch_task same_phase stepped_to
    finish is_over_budget settle settle_with with_runners set_status with_store read_clock
    update_task Dict.put leave_tree cascade root_result result_of aggregate judged failed_children
    blocked_children child_result pick
finishes = refl

run_scheduler-completed_example :
    (all_settled last ≡ true)
    × (root_result root last ≡ ended)
    × All (IsDone last.root_id) last.runners
unfolding make_runner
run_scheduler-completed_example =
    run_scheduler-completed runtime 2 root [] late ended last refl finishes refl

-- the tree of the store has grown below the root
abbrev grown : Run fixed host runtime
grown = record last { runners = root ∷ []; tree_initialized = true; engine = engine }

settle-unresumable_example :
    AbortedIn "t1"
      (the_store (settle 0 root SendStatus.blocked (some (said "needs approval")) grown))
unfolding make_runner get_task_tree Dict.get
settle-unresumable_example =
    settle-unresumable 0 root SendStatus.blocked (some (said "needs approval")) grown tree
      (task "t1") refl refl refl refl refl refl
