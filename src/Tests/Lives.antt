-- ===== src/Tests/Lives.antt =====
-- The theorems on pause and resume, on the cache, the cleanup, the registry and the horizon, at concrete inputs.
use mathlib.Core.Option
use delta_agents.Common.{
  ℕ, ◌≤◌, ◌-◌, String, ◌≡◌, refl, arith, Bool, ◌==◌, length, true, false, Option, none, some, List,
  [], ◌∷◌, ok, err,
}
use delta_agents.Common.Dict
use delta_agents.Scores.Fixed.{fixed}
use delta_agents.Types.{running, paused, ExecutionStatus}
use delta_agents.State.{with_status}
use delta_agents.Store.{Store, Checkpoint, includes_status, get_latest_checkpoint}
use delta_agents.Execution.{Engine}
use delta_agents.Lifecycle.{
  not_swapped, already_terminal, is_terminal, best, Drivers, pause_task, resume_task,
}
use delta_agents.Lifecycle.Gate.{Resumed, terminal-stays, resume_task-pause_task}
use delta_agents.Cost.{zero_cost}
use delta_agents.Cache.{Cache, CacheConfig}
use delta_agents.Registry.{Agent, create_registry, get_agent, is_deployed, found}
use delta_agents.Registry.History.{
  Event, agent_defined, agent_deployed, run_events, first_agent, deployed_after, run_events_lem,
}
use delta_agents.Cleanup.{CleanupOptions, Readings, run_cleanup}
use delta_agents.Cleanup.Retention.{remainder, is_outdated, get-run_cleanup}
use delta_agents.Cache.Bounds.{
  Operation, setting, getting, sweeping, run_operations, run_operations-bounded,
}
use delta_agents.Horizon.{HorizonStep, project_horizon}
use delta_agents.Horizon.Boundary.{projected_tokens, project_horizon-boundary}
use delta_agents.Tests.Data.{host, task, store, engine}

-- what drives the task answers with a number
abbrev drivers : Drivers fixed host ℕ
drivers = record {
  commit_step = λ t s e. (1, e);
  workflow_task = λ t name s e. (2, e);
  send_loop = λ t s e. (3, e);
}

abbrev ended : Engine fixed host
ended = record engine {
  store = record store {
    tasks = ("t1", record (task "t1") { status = ExecutionStatus.failed }) ∷ [];
  };
}

terminal-stays_example :
    (pause_task "t1" ended ≡ (err (already_terminal "t1" ExecutionStatus.failed), ended))
    × ((resume_task drivers "t1" ended).0 ≡ err (not_swapped "t1"))
    × ((resume_task drivers "t1" ended).1.store ≡ ended.store)
unfolding Dict.get is_terminal
terminal-stays_example =
    terminal-stays drivers "t1" ended (record (task "t1") { status = ExecutionStatus.failed }) refl
      refl

resume_task-pause_task_example :
    let s = best (get_latest_checkpoint "t1" engine.store) (task "t1") in
    let e1 = (pause_task "t1" engine).1 in
    ((pause_task "t1" engine).0 ≡ ok tt)
    × (Option.map (λ (c : Checkpoint ℕ). c.state) (get_latest_checkpoint "t1" e1.store)
        ≡ some (with_status s paused))
    × Resumed drivers "t1" (with_status s running) e1
unfolding Dict.get is_terminal
resume_task-pause_task_example = resume_task-pause_task drivers "t1" engine (task "t1") refl refl

abbrev clock : CacheConfig
clock = record { max_entries = 2; ttl_ms = 10 }

abbrev visits : List (ℕ × Operation ℕ)
visits =
    (1, setting "a" 1)
    ∷ (2, setting "b" 2)
    ∷ (3, getting "a")
    ∷ (4, setting "c" 3)
    ∷ (20, sweeping)
    ∷ []

run_operations-bounded_example : length (run_operations clock visits []) ≤ 2
run_operations-bounded_example = run_operations-bounded clock visits [] (omega arith)

abbrev read : HorizonStep
read = record {
  action_name = "read";
  estimated_cost = record zero_cost { tokens = 8; memory = some 2 };
  is_epistemic_boundary = false;
}

abbrev search_web : HorizonStep
search_web = record {
  action_name = "search";
  estimated_cost = zero_cost;
  is_epistemic_boundary = true;
}

-- as if each step on took 1 off
abbrev lessened : ℕ → ℕ → ℕ
lessened i amount = amount - i

project_horizon-boundary_example :
    let p = project_horizon lessened (read ∷ read ∷ []) in
    (project_horizon lessened (read ∷ read ∷ search_web ∷ read ∷ [])
      ≡ record p { boundary = some (record { stopped_at = 2; action_name = "search" }) })
    × (p.total_projected_cost.tokens ≡ projected_tokens lessened 0 (read ∷ read ∷ []))
    × (p.steps_taken ≡ 2)
    × (p.boundary ≡ none)
project_horizon-boundary_example =
    project_horizon-boundary lessened (read ∷ read ∷ []) search_web (read ∷ []) (refl, (refl, tt))
      refl

-- a prefix test that only knows whole texts
abbrev equal_text : String → String → Bool
equal_text a b = a == b

abbrev retention : CleanupOptions
retention = record {
  task_retention_ms = some 10;
  message_retention_ms = some 10;
  evict_cache = true;
}

abbrev empty_cache : Cache ℕ
empty_cache = []

abbrev readings : Readings
readings = record { at_eviction = 100; at_tasks = 100; at_messages = 101 }

abbrev one_done : Store ℕ
one_done = record store {
  tasks =
      ("t1", record (task "t1") { status = ExecutionStatus.failed; updated_at = 20 })
      ∷ ("t2", record (task "t2") { status = running; updated_at = 20 })
      ∷ [];
}

get-run_cleanup_example :
    let s' = (run_cleanup equal_text readings retention (empty_cache, one_done)).1 in
    (Dict.get s'.tasks "t1" ≡ none)
    × (s'.memories_by_agent ≡ one_done.memories_by_agent)
    × (s'.approvals ≡ one_done.approvals)
unfolding remainder is_outdated Dict.get includes_status
get-run_cleanup_example =
    get-run_cleanup equal_text readings retention empty_cache one_done "t1"
      (refl, refl, (refl, refl, tt))

abbrev writer : Option String → Agent fixed host
writer team = record { name = "writer"; team = team; actions = []; workflows = none }

abbrev defined : List (Event fixed host)
defined =
    agent_deployed "reader"
    ∷ agent_defined (writer none)
    ∷ agent_defined (writer (some "news"))
    ∷ agent_deployed "writer"
    ∷ []

run_events_lem_example :
    let r = run_events defined create_registry in
    (get_agent "writer" r ≡ ok (writer none)) × (is_deployed "writer" r ≡ true)
unfolding first_agent deployed_after found
run_events_lem_example = run_events_lem defined "writer"
