-- ===== src/Registry/History.antt =====
-- The registry after any history of definitions and deployments (authoring/registry.ts).
use delta_agents.Common.{
  String, ◌≡◌, refl, Bool, false, Option, none, some, List, [], ◌∷◌, ◌==◌, ◌&&◌, ◌||◌, arith,
  eq_iff, Option-cases, ap, includes-append, includes, is_some, if◌then◌else◌, ◌∙◌, Bool-cases, inl,
  inr,
}
use delta_agents.Common.Dict
use delta_agents.Common.Dict.{Dict, get-put}
use delta_agents.Scores.{Scores}
use delta_agents.Host.{Host, Action}
use delta_agents.Workflow.{Workflow}
use delta_agents.Registry.{
  DataSource, Tool, Agent, Registry, register, found, create_registry, register_action,
  register_workflow, register_agent, register_data_source, register_tool, deploy_agent, is_deployed,
  get_agent,
}

pub data Event (F : Scores) (H : Host) : Type 0 where
  action_defined : Action F H → Event F H
  workflow_defined : Workflow F H → Event F H
  agent_defined : Agent F H → Event F H
  data_source_defined : DataSource → Event F H
  tool_defined : Tool → Event F H
  agent_deployed : String → Event F H

module _ {F : Scores} {H : Host} where
  pub run_event : Event F H → Registry F H → Registry F H
  run_event (action_defined a) r = (register_action a r).1
  run_event (workflow_defined w) r = (register_workflow w r).1
  run_event (agent_defined a) r = (register_agent a r).1
  run_event (data_source_defined d) r = (register_data_source d r).1
  run_event (tool_defined t) r = (register_tool t r).1
  run_event (agent_deployed name) r = (deploy_agent name r).1

  pub run_events : List (Event F H) → Registry F H → Registry F H
  unfolding run_event
  run_events [] r = r
  run_events (e ∷ es) r = run_events es (run_event e r)

  -- the agent of the first definition of a name
  unfoldable pub first_agent : String → List (Event F H) → Option (Agent F H)
  first_agent name [] = none
  first_agent name (agent_defined a ∷ es) =
      let rest = first_agent name es in if a.name == name then some a else rest
  first_agent name (_ ∷ es) = first_agent name es

  -- a deployment of the name after an agent of that name is defined
  unfoldable pub deployed_after : Bool → String → List (Event F H) → Bool
  deployed_after known name [] = false
  deployed_after known name (agent_defined a ∷ es) =
      deployed_after (known || (a.name == name)) name es
  deployed_after known name (agent_deployed n ∷ es) =
      let rest = deployed_after known name es in (known && (n == name)) || rest
  deployed_after known name (_ ∷ es) = deployed_after known name es

  -- what stood there before, or what came later
  abbrev earlier : Option (Agent F H) → Option (Agent F H) → Option (Agent F H)
  earlier none later = later
  earlier (some a) later = some a

  get-register :
      (a : Agent F H) (m : Dict (Agent F H)) (name : String)
      → Dict.get (register a.name a m).1 name
        ≡ earlier (Dict.get m name) (if a.name == name then some a else none)
  unfolding register
  get-register a m name = ground (arith, get-put m a.name name a, eq_iff a.name name)

  get-deploy_agent : (n : String) (r : Registry F H) → (deploy_agent n r).1.agents ≡ r.agents
  unfolding deploy_agent
  get-deploy_agent n r = elim (Bool-cases (is_some (Dict.get r.agents n))) [
    | inl known ↦ rw known refl
    | inr missing ↦ rw missing refl
  ]

  get-first_agent :
      (es : List (Event F H)) (r : Registry F H) (name : String)
      → Dict.get (run_events es r).agents name
        ≡ earlier (Dict.get r.agents name) (first_agent name es)
  unfolding run_events run_event first_agent register_action register_workflow register_agent
      register_data_source register_tool
  get-first_agent [] r name = elim (Option-cases (Dict.get r.agents name)) [
    | inl e ↦ rw e refl
    | inr (x, e) ↦ rw e refl
  ]
  get-first_agent (agent_defined a ∷ es) r name =
      let rest = get-first_agent es (register_agent a r).1 name in
      ground (arith, rest, get-register a r.agents name)
  get-first_agent (action_defined a ∷ es) r name = get-first_agent es (register_action a r).1 name
  get-first_agent (workflow_defined w ∷ es) r name =
      get-first_agent es (register_workflow w r).1 name
  get-first_agent (data_source_defined d ∷ es) r name =
      get-first_agent es (register_data_source d r).1 name
  get-first_agent (tool_defined t ∷ es) r name = get-first_agent es (register_tool t r).1 name
  get-first_agent (agent_deployed n ∷ es) r name =
      get-first_agent es (deploy_agent n r).1 name
      ∙ ap (λ m. earlier (Dict.get m name) (first_agent name es)) (get-deploy_agent n r)

  is_deployed-deploy_agent :
      (n : String) (r : Registry F H) (name : String)
      → is_deployed name (deploy_agent n r).1
        ≡ (is_deployed name r || (is_some (Dict.get r.agents name) && (n == name)))
  unfolding is_deployed deploy_agent includes
  is_deployed-deploy_agent n r name =
      ground (arith, includes-append r.deployed (n ∷ []) name, eq_iff n name)

  is_deployed-deployed_after :
      (es : List (Event F H)) (r : Registry F H) (name : String)
      → is_deployed name (run_events es r)
        ≡ (is_deployed name r || deployed_after (is_some (Dict.get r.agents name)) name es)
  unfolding run_events run_event deployed_after is_deployed register_action register_workflow
      register_agent register_data_source register_tool
  is_deployed-deployed_after [] r name = ground arith
  is_deployed-deployed_after (agent_defined a ∷ es) r name =
      is_deployed-deployed_after es (register_agent a r).1 name
      ∙ ap (λ k. is_deployed name r || deployed_after k name es)
          (ground (arith, get-register a r.agents name))
  is_deployed-deployed_after (action_defined a ∷ es) r name =
      is_deployed-deployed_after es (register_action a r).1 name
  is_deployed-deployed_after (workflow_defined w ∷ es) r name =
      is_deployed-deployed_after es (register_workflow w r).1 name
  is_deployed-deployed_after (data_source_defined d ∷ es) r name =
      is_deployed-deployed_after es (register_data_source d r).1 name
  is_deployed-deployed_after (tool_defined t ∷ es) r name =
      is_deployed-deployed_after es (register_tool t r).1 name
  is_deployed-deployed_after (agent_deployed n ∷ es) r name =
      let rest = is_deployed-deployed_after es (deploy_agent n r).1 name in
      ground (arith, rest, is_deployed-deploy_agent n r name, get-deploy_agent n r)

  -- After any history from an empty registry, an agent is the one of the first definition of its name, and
  -- is deployed exactly if it was deployed after that definition.
  pub run_events_lem :
      (es : List (Event F H)) (name : String)
      → let r = run_events es create_registry in
        (get_agent name r ≡ found name (first_agent name es))
        × (is_deployed name r ≡ deployed_after false name es)
  unfolding get_agent is_deployed includes Dict.get
  run_events_lem es name = (
    ap (found name) (get-first_agent es create_registry name),
    is_deployed-deployed_after es create_registry name,
  )
