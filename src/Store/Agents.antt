-- ===== src/Store/Agents.antt =====
-- frontend/src/store/agentSlice.ts. `N` stands for JavaScript's numbers.
pub mod Selection
use cont_ained.Base.{
  String, Bool, true, false, not, Option, none, some, List, [], ◌∷◌, ◌++◌, ◌==◌, map, filter,
  get_or, is_some, if◌then◌else◌,
}

-- `Agent`.
pub record Agent (N : Type 0) : Type 0 where
  pub id : String
  pub name : String
  pub role : String
  pub system_prompt : String
  pub model_id : String
  pub tools : List String
  pub temperature : N
  pub max_tokens : N
  pub is_active : Option Bool
  pub endpoint_slug : Option String
  pub created_at : Option String
  pub updated_at : Option String

-- `Partial<Agent>`; an optional field that is absent keeps the agent's.
pub record AgentUpdates (N : Type 0) : Type 0 where
  pub id : Option String
  pub name : Option String
  pub role : Option String
  pub system_prompt : Option String
  pub model_id : Option String
  pub tools : Option (List String)
  pub temperature : Option N
  pub max_tokens : Option N
  pub is_active : Option (Option Bool)
  pub endpoint_slug : Option (Option String)
  pub created_at : Option (Option String)
  pub updated_at : Option (Option String)

-- The fields of `AgentSlice` that hold state.
pub record AgentState (N : Type 0) : Type 0 where
  pub agents : List (Agent N)
  pub selected_agent_id : Option String

-- The actions of `AgentSlice`.
pub data AgentCall (N : Type 0) : Type 0 where
  sets_agents : List (Agent N) → AgentCall N
  adds_agent : Agent N → AgentCall N
  updates_agent : String → AgentUpdates N → AgentCall N
  removes_agent : String → AgentCall N
  selects_agent : Option String → AgentCall N

-- `selected === id ? null : selected`.
abbrev pub deselect : String → Option String → Option String
deselect id none = none
deselect id (some k) = if k == id then none else some k

module _ {N : Type 0} where
  -- `{ ...a, ...updated }`.
  abbrev pub merge_agent : Agent N → AgentUpdates N → Agent N
  merge_agent a u = record {
    id = get_or u.id a.id;
    name = get_or u.name a.name;
    role = get_or u.role a.role;
    system_prompt = get_or u.system_prompt a.system_prompt;
    model_id = get_or u.model_id a.model_id;
    tools = get_or u.tools a.tools;
    temperature = get_or u.temperature a.temperature;
    max_tokens = get_or u.max_tokens a.max_tokens;
    is_active = get_or u.is_active a.is_active;
    endpoint_slug = get_or u.endpoint_slug a.endpoint_slug;
    created_at = get_or u.created_at a.created_at;
    updated_at = get_or u.updated_at a.updated_at;
  }

  -- `removeAgent`.
  unfoldable pub remove_agent : String → AgentState N → AgentState N
  remove_agent id s = record {
    agents = filter (λ a. not (a.id == id)) s.agents;
    selected_agent_id = deselect id s.selected_agent_id;
  }

  -- `updateAgentInStore`.
  unfoldable pub update_agent : String → AgentUpdates N → AgentState N → AgentState N
  update_agent id updated s = record s {
    agents = map (λ a. if a.id == id then merge_agent a updated else a) s.agents;
  }

  unfoldable pub agent_step : AgentCall N → AgentState N → AgentState N
  agent_step (sets_agents agents) s = record s { agents = agents }
  agent_step (adds_agent a) s = record s { agents = s.agents ++ a ∷ [] }
  agent_step (updates_agent id updated) s = update_agent id updated s
  agent_step (removes_agent id) s = remove_agent id s
  agent_step (selects_agent id) s = record s { selected_agent_id = id }
