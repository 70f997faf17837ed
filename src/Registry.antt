-- ===== src/Registry.antt =====
-- packages/delta/src/authoring/registry.ts: the definitions of an engine by their names, and the agents that
-- are deployed. Of an agent, a data source and a tool (authoring/types.ts) it has what the registry reads.
pub mod History
use delta_agents.Common.{
  String, Bool, true, false, Option, none, some, List, [], ◌∷◌, ◌==◌, not, or_else, Result, ok, err,
  filter, includes, is_some, ◌++◌, if◌then◌else◌,
}
use delta_agents.Common.Dict
use delta_agents.Common.Dict.{Dict}
use delta_agents.Scores.{Scores}
use delta_agents.Host.{Host, Action}
use delta_agents.Workflow.{Workflow}

pub record DataSource : Type 0 where
  pub name : String

pub record Tool : Type 0 where
  pub name : String

pub record Agent (F : Scores) (H : Host) : Type 0 where
  pub name : String
  pub team : Option String
  pub actions : List (Action F H)
  pub workflows : Option (List (Workflow F H))

pub record Registry (F : Scores) (H : Host) : Type 0 where
  pub actions : Dict (Action F H)
  pub workflows : Dict (Workflow F H)
  pub agents : Dict (Agent F H)
  pub data_sources : Dict DataSource
  pub tools : Dict Tool
  pub deployed : List String

pub data RegistryError : Type 0 where
  already_registered not_registered not_found : String → RegistryError

-- the guard of every registration: the first definition of a name stays
unfoldable pub register : {V : Type 0} → String → V → Dict V → Result RegistryError V × Dict V
register name v m =
    if is_some (Dict.get m name)
    then (err (already_registered name), m)
    else (ok v, Dict.put m name v)

unfoldable pub found : {V : Type 0} → String → Option V → Result RegistryError V
found name none = err (not_found name)
found name (some v) = ok v

same_team : Option String → Option String → Bool
same_team (some a) (some b) = a == b
same_team _ _ = false

module _ {F : Scores} {H : Host} where
  abbrev pub create_registry : Registry F H
  create_registry = record {
    actions = [];
    workflows = [];
    agents = [];
    data_sources = [];
    tools = [];
    deployed = [];
  }

  unfoldable pub register_action :
      Action F H → Registry F H → Result RegistryError (Action F H) × Registry F H
  register_action a r =
      let (result, m) = register a.spec.name a r.actions in (result, record r { actions = m })

  unfoldable pub register_workflow :
      Workflow F H → Registry F H → Result RegistryError (Workflow F H) × Registry F H
  register_workflow w r =
      let (result, m) = register w.name w r.workflows in (result, record r { workflows = m })

  unfoldable pub register_agent :
      Agent F H → Registry F H → Result RegistryError (Agent F H) × Registry F H
  register_agent a r =
      let (result, m) = register a.name a r.agents in (result, record r { agents = m })

  unfoldable pub register_data_source :
      DataSource → Registry F H → Result RegistryError DataSource × Registry F H
  register_data_source d r =
      let (result, m) = register d.name d r.data_sources in (result, record r { data_sources = m })

  unfoldable pub register_tool : Tool → Registry F H → Result RegistryError Tool × Registry F H
  register_tool t r =
      let (result, m) = register t.name t r.tools in (result, record r { tools = m })

  -- a `Set` holds a name once
  unfoldable pub deploy_agent :
      String → Registry F H → Result RegistryError (Unit {0}) × Registry F H
  deploy_agent name r =
      if is_some (Dict.get r.agents name)
      then (
        ok tt,
        record r {
          deployed = if includes r.deployed name then r.deployed else r.deployed ++ name ∷ [];
        },
      )
      else (err (not_registered name), r)

  unfoldable pub is_deployed : String → Registry F H → Bool
  is_deployed name r = includes r.deployed name

  unfoldable pub get_action : String → Registry F H → Result RegistryError (Action F H)
  get_action name r = found name (Dict.get r.actions name)

  unfoldable pub get_workflow : String → Registry F H → Result RegistryError (Workflow F H)
  get_workflow name r = found name (Dict.get r.workflows name)

  unfoldable pub get_agent : String → Registry F H → Result RegistryError (Agent F H)
  get_agent name r = found name (Dict.get r.agents name)

  unfoldable pub get_data_source : String → Registry F H → Result RegistryError DataSource
  get_data_source name r = found name (Dict.get r.data_sources name)

  unfoldable pub get_tool : String → Registry F H → Result RegistryError Tool
  get_tool name r = found name (Dict.get r.tools name)

  actions_of : String → Option (Agent F H) → Result RegistryError (List (Action F H))
  actions_of name none = err (not_found name)
  actions_of name (some a) = ok a.actions

  pub get_actions_for_agent : String → Registry F H → Result RegistryError (List (Action F H))
  unfolding actions_of
  get_actions_for_agent name r = actions_of name (Dict.get r.agents name)

  workflows_of : String → Option (Agent F H) → Result RegistryError (List (Workflow F H))
  workflows_of name none = err (not_found name)
  workflows_of name (some a) = ok (or_else a.workflows [])

  pub get_workflows_for_agent : String → Registry F H → Result RegistryError (List (Workflow F H))
  unfolding workflows_of
  get_workflows_for_agent name r = workflows_of name (Dict.get r.agents name)

  -- without a team of its own an agent has every other agent as a peer
  mates : Option (Agent F H) → List (Agent F H) → List (Agent F H)
  unfolding same_team
  mates none others = others
  mates (some self) others =
      if is_some self.team then filter (λ a. same_team a.team self.team) others else others

  names : List (Agent F H) → List String
  names [] = []
  names (a ∷ others) = a.name ∷ names others

  pub get_teammates : String → Registry F H → List String
  unfolding mates names
  get_teammates name r =
      names
        (mates (Dict.get r.agents name) (filter (λ a. not (a.name == name)) (Dict.values r.agents)))
