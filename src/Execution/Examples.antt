-- ===== src/Execution/Examples.antt =====
-- The theorems on the gateway at concrete inputs: a lookup that runs, and one that its hook
-- prevents.
use delta_agents.Common.{ℕ, ◌≡◌, refl, ◌↔◌, some, [], ◌∷◌, ok, err}
use delta_agents.Scores.Fixed.{fixed}
use delta_agents.Cost.{is_over_budget}
use delta_agents.State.{check_legality, evaluate_prerequisites}
use delta_agents.Types.{Memory}
use delta_agents.Host.{Hooks, before_hook_failed, hook_failed}
use delta_agents.Oversight
use delta_agents.Execution.{
  GatewayInput, GatewaySuccess, gates, schema_gate, legality_gate, gated, admitted, perform,
  run_hook, call_hook, hook_outcome, run_gateway,
}
use delta_agents.Execution.Gateway.{
  IsAdmissible, IsBlocked, gates_iff, run_gateway-IsBlocked, IsPerformed, run_gateway-IsPerformed,
}
use delta_agents.Tests.Data.{host, snap, engine, lookup, gateway_input}

abbrev input : GatewayInput fixed host
input = gateway_input lookup snap

gates_iff_example : (gates fixed host input ≡ ok 7) ↔ IsAdmissible fixed host input 7
gates_iff_example = gates_iff fixed host input 7

-- a `before` hook that remembers something and then fails
abbrev memory : Memory
memory = record {
  id = "mem_1";
  task_id = "t1";
  agent_name = "support";
  kind = "note";
  content = "asked twice";
  created_at = 1;
}

abbrev remembering : Hooks fixed host
remembering = record lookup.hooks {
  before = some (λ ctx o. (
    err "not now",
    record o { desk = record o.desk { memories_by_agent = ("support", memory ∷ []) ∷ [] } },
  ));
}

abbrev prevented : GatewayInput fixed host
prevented = gateway_input (record lookup { hooks = remembering }) snap

run_gateway-IsBlocked_example :
    IsBlocked fixed host prevented
      (before_hook_failed (hook_failed "not now"))
      engine.store
      (run_gateway fixed host prevented engine).1.store
unfolding run_gateway gated admitted gates schema_gate legality_gate check_legality is_over_budget
    evaluate_prerequisites Oversight.approval_required run_hook call_hook hook_outcome
run_gateway-IsBlocked_example =
    run_gateway-IsBlocked fixed host prevented engine (before_hook_failed (hook_failed "not now"))
      refl

abbrev success : GatewaySuccess fixed host
success = (perform fixed host input 7 "exc_" (record engine { world = 11 })).0

run_gateway-IsPerformed_example :
    ((d : ℕ) × IsAdmissible fixed host input d)
    × IsPerformed fixed host input success engine.store
        (run_gateway fixed host input engine).1.store
unfolding run_gateway gated admitted gates schema_gate legality_gate check_legality is_over_budget
    evaluate_prerequisites Oversight.approval_required run_hook
run_gateway-IsPerformed_example = run_gateway-IsPerformed fixed host input engine success refl
