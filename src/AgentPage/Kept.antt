-- ===== src/AgentPage/Kept.antt =====
-- frontend/src/components/hubs/agent/AgentDetail.tsx: the mark `isDirty` of the form.
use cont_ained.Base.{
  true, false, ◌&&◌, not, Option, none, some, ◌≡◌, refl, ◌⊎◌, inl, inr, arith, is_some, Bool,
}
use cont_ained.AgentPage.Data.{
  Host, Agent, Form, AgentDetail, config, knowledge, endpoint, invocations, test,
}
use cont_ained.AgentPage.{form_of}
use cont_ained.AgentPage.Events.{
  agent_step, AgentEvent, navigates, fetched, fetch_fails, edits, saves, saved, saves_bindings,
  bindings_saved, toggles, sets_alias, sets_top_k, shows_tab, knows, types_prompt, runs_test,
  answers, test_fails,
}

module _ {Num : Type 0} (host : Host Num) where
  -- The form is the one that the agent gives.
  abbrev pub Shows : Option (Agent Num) → Form Num → Type 0
  Shows none f = Unit
  Shows (some a) f = f ≡ form_of host a

  -- The page neither loads nor shows an error, and the form is not marked.
  abbrev pub is_settled : AgentDetail Num → Bool
  is_settled p = not p.loading && (not (is_some p.error) && not p.is_dirty)

  -- Where the page is settled, the form is the one of the agent that is loaded.
  abbrev pub IsKept : AgentDetail Num → Type 0
  IsKept p = (is_settled p ≡ false) ⊎ Shows p.agent p.form

  -- If the form is the one of the loaded agent wherever the page does not load, shows no error and
  -- the form is not marked as changed, then that is so after every event, in any order of the
  -- answers.
  pub agent_step-IsKept :
      (e : AgentEvent Num) (p : AgentDetail Num) → IsKept p → IsKept (agent_step host e p)
  unfolding agent_step
  agent_step-IsKept (navigates hub agent) p h = ground arith
  agent_step-IsKept (fetched a) p h = inr refl
  agent_step-IsKept (fetch_fails message) p h = ground arith
  agent_step-IsKept (edits f) p h = ground arith
  agent_step-IsKept saves p h = ground arith
  agent_step-IsKept (saved true) p h = inl refl
  agent_step-IsKept (saved false) p h = h
  agent_step-IsKept saves_bindings p h = ground arith
  agent_step-IsKept (bindings_saved true) p h = inl refl
  agent_step-IsKept (bindings_saved false) p h = h
  agent_step-IsKept (toggles hub col) p h = h
  agent_step-IsKept (sets_alias hub col value) p h = h
  agent_step-IsKept (sets_top_k hub col value) p h = h
  agent_step-IsKept (shows_tab config) p h = h
  agent_step-IsKept (shows_tab knowledge) p h = h
  agent_step-IsKept (shows_tab endpoint) p h = h
  agent_step-IsKept (shows_tab invocations) p h = h
  agent_step-IsKept (shows_tab test) p h = h
  agent_step-IsKept (knows none) p h = h
  agent_step-IsKept (knows (some l)) p h = h
  agent_step-IsKept (types_prompt text) p h = h
  agent_step-IsKept runs_test p h = ground arith
  agent_step-IsKept (answers text) p h = h
  agent_step-IsKept (test_fails message) p h = h
