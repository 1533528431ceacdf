-- ===== src/AgentPage/Events.antt =====
-- frontend/src/components/hubs/agent/AgentDetail.tsx: the events of the page, one for each handler and
-- each answer that it waits for. Answers come in any order and at any time.
use cont_ained.Base.{String, Bool, true, false, Option, none, some, List, ◌==◌, if◌then◌else◌}
use cont_ained.AgentPage.Data.{
  Host, Agent, Form, Collection, LinkedHub, AgentDetailTab, knowledge, AgentDetail,
}
use cont_ained.AgentPage.{
  finish_fetch_agent, fail_fetch_agent, set_form, begin_save_config, finish_save_config,
  begin_save_bindings, finish_save_bindings, toggle_binding, set_alias, set_top_k, begin_run_test,
  finish_run_test, fail_run_test, navigate,
}

pub data AgentEvent (Num : Type 0) : Type 0 where
  navigates : String → String → AgentEvent Num
  fetched : Agent Num → AgentEvent Num
  fetch_fails : Option String → AgentEvent Num
  edits : Form Num → AgentEvent Num
  saves saves_bindings : AgentEvent Num
  saved bindings_saved : Bool → AgentEvent Num
  toggles : String → Collection → AgentEvent Num
  sets_alias sets_top_k : String → String → String → AgentEvent Num
  shows_tab : AgentDetailTab → AgentEvent Num
  knows : Option (List LinkedHub) → AgentEvent Num
  types_prompt : String → AgentEvent Num
  runs_test : AgentEvent Num
  answers : String → AgentEvent Num
  test_fails : Option String → AgentEvent Num

module _ {Num : Type 0} where
  -- The effect on `[activeTab, hubId]`, which starts `fetchKnowledgeData`.
  unfoldable pub show_tab : AgentDetailTab → AgentDetail Num → AgentDetail Num
  show_tab knowledge p = record p {
    active_tab = knowledge;
    loading_knowledge = if p.hub_id == "" then p.loading_knowledge else true;
  }
  show_tab t p = record p { active_tab = t }

  -- The answer of `fetchKnowledgeData`, if it has one.
  unfoldable pub finish_knowledge : Option (List LinkedHub) → AgentDetail Num → AgentDetail Num
  finish_knowledge none p = record p { loading_knowledge = false }
  finish_knowledge (some l) p = record p { linked_hubs_data = l; loading_knowledge = false }

  unfoldable pub agent_step : Host Num → AgentEvent Num → AgentDetail Num → AgentDetail Num
  unfolding finish_fetch_agent fail_fetch_agent set_form begin_save_config finish_save_config
      begin_save_bindings finish_save_bindings toggle_binding set_alias set_top_k begin_run_test
      finish_run_test fail_run_test navigate show_tab finish_knowledge
  agent_step host (navigates hub agent) p = navigate hub agent p
  agent_step host (fetched a) p = finish_fetch_agent host a p
  agent_step host (fetch_fails message) p = fail_fetch_agent message p
  agent_step host (edits f) p = set_form f p
  agent_step host saves p = begin_save_config p
  agent_step host (saved ok) p = finish_save_config ok p
  agent_step host saves_bindings p = begin_save_bindings p
  agent_step host (bindings_saved ok) p = finish_save_bindings ok p
  agent_step host (toggles hub col) p = record p {
    bound_bindings = toggle_binding host hub col p.bound_bindings;
  }
  agent_step host (sets_alias hub col value) p = record p {
    bound_bindings = set_alias hub col value p.bound_bindings;
  }
  agent_step host (sets_top_k hub col value) p = record p {
    bound_bindings = set_top_k host hub col value p.bound_bindings;
  }
  agent_step host (shows_tab t) p = show_tab t p
  agent_step host (knows l) p = finish_knowledge l p
  agent_step host (types_prompt text) p = record p { test_prompt = text }
  agent_step host runs_test p = begin_run_test host p
  agent_step host (answers text) p = finish_run_test text p
  agent_step host (test_fails message) p = fail_run_test message p
