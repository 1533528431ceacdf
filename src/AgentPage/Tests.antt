-- ===== src/AgentPage/Tests.antt =====
-- The page of an agent on small inputs; numbers are natural numbers, and every text reads as 8.
use cont_ained.Base.{
  ℕ, String, true, false, not, none, some, List, [], ◌∷◌, ◌++◌, ◌≡◌, ◌≢◌, refl, inr, eqb, map,
  filter, arith, All, eq_iff,
}
use cont_ained.Base.{if◌then◌else◌, ◌==◌}
use cont_ained.AgentPage.Data.{Host, Agent, Form, AgentDetail, Collection, Hub, LinkedHub, config}
use cont_ained.AgentPage.{form_of, toggle_binding, binds, set_top_k}
use cont_ained.AgentPage.Events.{agent_step, edits, saves, saved, fetched, bindings_saved}
use cont_ained.AgentPage.Kept.{IsKept, agent_step-IsKept}
use cont_ained.AgentPage.Lost.{agent_run, saved_agent, saved_form}
use cont_ained.AgentPage.Bound.{fresh, filter-toggle_binding}
use cont_ained.AgentPage.Linked.{
  CollectionsReply, array, list_failed, linked_hubs, linked_hubs_lem, collections_of,
  ingestion_target, hub_at,
}

abbrev plain_host : Host ℕ
plain_host = record {
  trim = λ s. s;
  parse_int = λ s. 8;
  parse_float = λ s. 8;
  truthy = λ n. not (eqb n 0);
  default_temperature = 7;
  default_max_tokens = 2048;
  five = 5;
}

abbrev helper : Agent ℕ
helper = record {
  id = "a1";
  name = some "Helper";
  role = none;
  model_id = some "m1";
  system_prompt = none;
  temperature = none;
  max_tokens = some 100;
  collection_bindings = none;
}

abbrev helper_form : Form ℕ
helper_form = record {
  name = "Helper";
  role = "";
  model_id = "m1";
  system_prompt = "";
  temperature = 7;
  max_tokens = 100;
}

-- A page that has loaded the agent.
abbrev shown : AgentDetail ℕ
shown = record {
  hub_id = "h1";
  agent_id = "a1";
  active_tab = config;
  agent = some helper;
  loading = false;
  error = none;
  form = helper_form;
  is_dirty = false;
  is_saving = false;
  bound_bindings = [];
  linked_hubs_data = [];
  loading_knowledge = false;
  is_saving_bindings = false;
  test_prompt = "";
  test_result = none;
  testing = false;
}

form_of_test : form_of plain_host helper ≡ helper_form
unfolding form_of
form_of_test = refl

abbrev renamed : Form ℕ
renamed = record helper_form { name = "Other" }

shown-IsKept : IsKept plain_host shown
unfolding form_of
shown-IsKept = inr refl

m1-filled : helper_form.model_id ≢ ""
m1-filled h = ground (arith, eq_iff "m1" "", h)

agent_step-IsKept_example : IsKept plain_host (agent_step plain_host (edits renamed) shown)
agent_step-IsKept_example = agent_step-IsKept plain_host (edits renamed) shown shown-IsKept

-- A form that is changed while the save of another change runs.
saved_form_example :
    let q =
      agent_run plain_host
        (saves ∷ map edits (renamed ∷ [])
          ++ saved true ∷ fetched (saved_agent plain_host shown helper) ∷ [])
        shown in
    (q.form ≡ helper_form) × (q.is_dirty ≡ false) × (q.loading ≡ false)
saved_form_example = saved_form plain_host (renamed ∷ []) helper shown refl m1-filled

abbrev manual : Collection
manual = record { id = "c1"; name = "Manual" }

filter-toggle_binding_example :
    filter (binds "h2" "c1") (toggle_binding plain_host "h2" manual [])
    ≡ fresh plain_host "h2" manual ∷ []
filter-toggle_binding_example = filter-toggle_binding plain_host "h2" manual "h2" "c1" []

-- Saving the bindings loads the agent again, and a name that is not saved is gone.
bindings_saved_test :
    (agent_run plain_host (edits renamed ∷ bindings_saved true ∷ fetched helper ∷ []) shown).form
    ≡ helper_form
unfolding agent_step
bindings_saved_test = refl

-- A number of results that reads as 0 is 5 again.
set_top_k_test :
    set_top_k
      (record plain_host { parse_int = λ s. 0 })
      "h2"
      "c1"
      "0"
      (fresh plain_host "h2" manual ∷ [])
    ≡ fresh plain_host "h2" manual ∷ []
unfolding set_top_k
set_top_k_test = refl

abbrev three_hubs : List Hub
three_hubs =
    record { id = "h1"; hub_type = "agent" }
    ∷ record { id = "h2"; hub_type = "ingestion" }
    ∷ record { id = "h3"; hub_type = "ingestion" }
    ∷ []

abbrev lists : String → CollectionsReply
lists s = if s == "h2" then array (manual ∷ []) else list_failed

linked_hubs_lem_test :
    let shown = linked_hubs three_hubs lists ("h3" ∷ "h1" ∷ "h2" ∷ []) in
    (map (λ l. l.hub.id) shown ≡ "h3" ∷ "h2" ∷ [])
    × (map (λ l. l.collections) shown ≡ [] ∷ (manual ∷ []) ∷ [])
    × All (λ (l : LinkedHub). (l.hub.hub_type == "ingestion") ≡ true) shown
unfolding linked_hubs ingestion_target hub_at collections_of
linked_hubs_lem_test = linked_hubs_lem three_hubs lists ("h3" ∷ "h1" ∷ "h2" ∷ [])
