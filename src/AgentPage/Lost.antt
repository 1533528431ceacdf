-- ===== src/AgentPage/Lost.antt =====
-- frontend/src/components/hubs/agent/AgentDetail.tsx: what is left of the form after it is saved.
use cont_ained.Base.{
  String, true, false, none, some, List, [], ◌∷◌, ◌++◌, map, ◌≡◌, ◌≢◌, refl, ◌∙◌, arith, eq_iff,
  or_text,
}
use cont_ained.AgentPage.Data.{Host, Agent, Form, AgentDetail}
use cont_ained.AgentPage.{form_of, sent_config, is_unrouted}
use cont_ained.AgentPage.Events.{agent_step, AgentEvent, edits, saves, saved, fetched}

module _ {Num : Type 0} (host : Host Num) where
  -- A row of events.
  abbrev pub agent_run : List (AgentEvent Num) → AgentDetail Num → AgentDetail Num
  agent_run [] p = p
  agent_run (e ∷ es) p = agent_run es (agent_step host e p)

  -- The agent, once the gateway has stored a form.
  abbrev pub stored : Form Num → Agent Num → Agent Num
  stored f a = record a {
    name = some f.name;
    role = some f.role;
    model_id = some f.model_id;
    system_prompt = some f.system_prompt;
    temperature = some f.temperature;
    max_tokens = some f.max_tokens;
  }

  or_text_same : (s : String) → or_text s "" ≡ s
  or_text_same s = ground (arith, eq_iff s "")

  form_of-stored : (f : Form Num) (a : Agent Num) → f.model_id ≢ "" → form_of host (stored f a) ≡ f
  unfolding form_of
  form_of-stored f a h = ground (
    arith,
    or_text_same f.name,
    or_text_same f.role,
    or_text_same f.system_prompt,
    eq_iff f.model_id "",
    h,
  )

  -- The agent of the gateway after `handleSaveConfig`.
  unfoldable pub saved_agent : AgentDetail Num → Agent Num → Agent Num
  saved_agent p a = elim (sent_config p) [ none ↦ a | some f ↦ stored f a ]

  after_edits :
      (es : List (Form Num)) (a : Agent Num) (p : AgentDetail Num)
      → let q = agent_run (map edits es ++ saved true ∷ fetched a ∷ []) p in
        (q.form ≡ form_of host a) × (q.is_dirty ≡ false) × (q.loading ≡ false)
  unfolding agent_step
  after_edits [] a p = (refl, refl, refl)
  after_edits (e ∷ es) a p = after_edits es a (agent_step host (edits e) p)

  form_of-saved_agent :
      (a : Agent Num) (p : AgentDetail Num)
      → is_unrouted p ≡ false
      → p.form.model_id ≢ ""
      → form_of host (saved_agent p a) ≡ p.form
  unfolding saved_agent sent_config
  form_of-saved_agent a p routed h =
      rw (saved_agent, sent_config, routed) (form_of-stored p.form a h)

  -- If the configuration is saved with a model, the fields are changed in any way while the save
  -- runs, the save succeeds, and the page loads the agent as the gateway has stored it, then the
  -- form is again what it was when the save began, unmarked and not loading: the changes in between
  -- are gone.
  pub saved_form :
      (es : List (Form Num)) (a : Agent Num) (p : AgentDetail Num)
      → is_unrouted p ≡ false
      → p.form.model_id ≢ ""
      → let q = agent_run (saves ∷ map edits es ++ saved true ∷ fetched (saved_agent p a) ∷ []) p in
        (q.form ≡ p.form) × (q.is_dirty ≡ false) × (q.loading ≡ false)
  saved_form es a p routed h =
      let q = after_edits es (saved_agent p a) (agent_step host saves p) in
      (q.0 ∙ form_of-saved_agent a p routed h, q.1, q.2)
