-- ===== src/Store/Agents/Selection.antt =====
-- The selection of frontend/src/store/agentSlice.ts against the list of agents.
use cont_ained.Base.{
  String, Bool, true, not, Option, none, some, List, [], ◌∷◌, ◌++◌, ◌==◌, ◌≡◌, ◌≢◌, refl, any, map,
  filter, if◌then◌else◌, arith, eq_iff, Bool-cases, inl, inr, ne_of_eq-false, ◌∙◌,
}
use cont_ained.Store.Agents.{
  Agent, AgentUpdates, AgentState, AgentCall, sets_agents, adds_agent, updates_agent, removes_agent,
  selects_agent, deselect, merge_agent, remove_agent, update_agent, agent_step,
}

module _ {N : Type 0} where
  abbrev pub has_agent : String → List (Agent N) → Bool
  has_agent id agents = any (λ a. a.id == id) agents

  -- The selection is empty or the id of an agent of the list.
  abbrev pub IsSelection : List (Agent N) → Option String → Type 0
  IsSelection agents none = Unit
  IsSelection agents (some id) = has_agent id agents ≡ true

  has_agent-remove :
      (id k : String) (agents : List (Agent N))
      → id ≢ k
      → has_agent id (filter (λ a. not (a.id == k)) agents) ≡ has_agent id agents
  has_agent-remove id k [] ne = refl
  has_agent-remove id k (a ∷ agents) ne =
      ground (arith, eq_iff a.id k, eq_iff a.id id, has_agent-remove id k agents ne)

  has_agent-append :
      (id : String) (agents : List (Agent N)) (a : Agent N)
      → has_agent id agents ≡ true
      → has_agent id (agents ++ a ∷ []) ≡ true
  has_agent-append id [] a h = cc
  has_agent-append id (b ∷ agents) a h = ground (arith, has_agent-append id agents a)

  has_agent-update :
      (id k : String) (u : AgentUpdates N) (agents : List (Agent N))
      → u.id ≡ none
      → has_agent id (map (λ a. if a.id == k then merge_agent a u else a) agents)
        ≡ has_agent id agents
  has_agent-update id k u [] e = refl
  has_agent-update id k u (a ∷ agents) e = elim (Bool-cases (a.id == k)) [
    | inl hit ↦ rw (hit, e) (ground (arith, has_agent-update id k u agents e))
    | inr miss ↦ rw miss (ground (arith, has_agent-update id k u agents e))
  ]

  -- What a call is given: a new list with the selected agent, an update that leaves the id alone, the
  -- id of an agent.
  abbrev pub Sensible : AgentCall N → AgentState N → Type 0
  Sensible (sets_agents agents) s = IsSelection agents s.selected_agent_id
  Sensible (updates_agent id u) s = u.id ≡ none
  Sensible (selects_agent id) s = IsSelection s.agents id
  Sensible _ s = Unit

  remove_agent-IsSelection :
      (k : String) (agents : List (Agent N)) (selected : Option String)
      → IsSelection agents selected
      → IsSelection (filter (λ a. not (a.id == k)) agents) (deselect k selected)
  remove_agent-IsSelection k agents none h = tt
  remove_agent-IsSelection k agents (some id) h = elim (Bool-cases (id == k)) [
    | inl same ↦ rw same tt
    | inr other ↦ rw other (has_agent-remove id k agents (ne_of_eq-false id k other) ∙ h)
  ]

  kept :
      (agents agents' : List (Agent N)) (selected : Option String)
      → ((id : String) → has_agent id agents ≡ true → has_agent id agents' ≡ true)
      → IsSelection agents selected
      → IsSelection agents' selected
  kept agents agents' none f h = tt
  kept agents agents' (some id) f h = f id h

  -- Every call keeps the selection empty or on an agent of the list, where a new list has the selected
  -- agent, an update does not set the id, and a selection names an agent of the list.
  pub agent_step-IsSelection :
      (c : AgentCall N) (s : AgentState N)
      → Sensible c s
      → IsSelection s.agents s.selected_agent_id
      → IsSelection (agent_step c s).agents (agent_step c s).selected_agent_id
  unfolding agent_step remove_agent update_agent
  agent_step-IsSelection (sets_agents agents) s g h = g
  agent_step-IsSelection (adds_agent a) s g h =
      kept s.agents (s.agents ++ a ∷ []) s.selected_agent_id
        (λ id i. has_agent-append id s.agents a i) h
  agent_step-IsSelection (updates_agent k u) s g h =
      kept s.agents (map (λ a. if a.id == k then merge_agent a u else a) s.agents)
        s.selected_agent_id (λ id i. has_agent-update id k u s.agents g ∙ i) h
  agent_step-IsSelection (removes_agent k) s g h =
      remove_agent-IsSelection k s.agents s.selected_agent_id h
  agent_step-IsSelection (selects_agent id) s g h = g
