-- ===== src/AgentPage.antt =====
-- frontend/src/components/hubs/agent/AgentDetail.tsx: the handlers of the page of an agent. A handler
-- that waits for the gateway is split there, into `begin_` and `finish_`.
pub mod Data
pub mod Events
pub mod Kept
pub mod Lost
pub mod Bound
pub mod Linked
mod Tests
use cont_ained.Base.{
  text_or, String, Bool, true, false, ◌&&◌, ◌||◌, not, Option, none, some, List, [], ◌∷◌, ◌++◌,
  ◌==◌, map, filter, any, get_or, if◌then◌else◌,
}
use cont_ained.AgentPage.Data.{
  Host, SentBinding, Binding, Agent, Form, Collection, AgentDetailTab, AgentDetail,
}

-- `!hubId || !agentId`.
abbrev pub is_unrouted : {Num : Type 0} → AgentDetail Num → Bool
is_unrouted p = p.hub_id == "" || p.agent_id == ""

module _ {Num : Type 0} where
  -- `fetchAgent` before and after the answer: the agent, or an error with its message.
  unfoldable pub begin_fetch_agent : AgentDetail Num → AgentDetail Num
  begin_fetch_agent p = if is_unrouted p then p else record p { loading = true; error = none }

  unfoldable pub fail_fetch_agent : Option String → AgentDetail Num → AgentDetail Num
  fail_fetch_agent message p = record p {
    error = some (text_or message "Failed to load agent detail");
    loading = false;
  }

  -- The fields of the configuration. Each change marks the form.
  unfoldable pub set_form : Form Num → AgentDetail Num → AgentDetail Num
  set_form f p = record p { form = f; is_dirty = true }

  -- `handleSaveConfig`, its answer, and the agent that it fetches again then.
  unfoldable pub begin_save_config : AgentDetail Num → AgentDetail Num
  begin_save_config p = if is_unrouted p then p else record p { is_saving = true }

  -- What it sends, if it sends anything.
  unfoldable pub sent_config : AgentDetail Num → Option (Form Num)
  sent_config p = if is_unrouted p then none else some p.form

  unfoldable pub finish_save_config : Bool → AgentDetail Num → AgentDetail Num
  finish_save_config true p = record p {
    is_dirty = false;
    is_saving = false;
    loading = true;
    error = none;
  }
  finish_save_config false p = record p { is_saving = false }

  -- The button of `handleSaveConfig` is not disabled; `can_edit` is `can("edit_resource")` in a
  -- hub that is not archived.
  abbrev pub offers_save : Bool → AgentDetail Num → Bool
  offers_save can_edit p = p.is_dirty && (not p.is_saving && can_edit)

  -- `handleSaveBindings`, likewise.
  unfoldable pub begin_save_bindings : AgentDetail Num → AgentDetail Num
  begin_save_bindings p = if is_unrouted p then p else record p { is_saving_bindings = true }

  unfoldable pub finish_save_bindings : Bool → AgentDetail Num → AgentDetail Num
  finish_save_bindings true p = record p {
    is_saving_bindings = false;
    loading = true;
    error = none;
  }
  finish_save_bindings false p = record p { is_saving_bindings = false }

  -- `b.hub_id === hub.id && b.collection_id === col.id`.
  abbrev pub binds : String → String → Binding Num → Bool
  binds hub col b = b.hub_id == hub && b.collection_id == col

  -- The fields of a binding.
  unfoldable pub set_alias : String → String → String → List (Binding Num) → List (Binding Num)
  set_alias hub col value bound =
      map (λ b. if binds hub col b then record b { alias = some value } else b) bound

  unfoldable pub finish_run_test : String → AgentDetail Num → AgentDetail Num
  finish_run_test answer p = record p { test_result = some answer; testing = false }

  unfoldable pub fail_run_test : Option String → AgentDetail Num → AgentDetail Num
  fail_run_test message p = record p {
    test_result = some (Prim.Native.String.◌++◌ "Error: " (text_or message "Invocation failed"));
    testing = false;
  }

  -- Another agent is shown: the effect on `[hubId, agentId]`.
  unfoldable pub navigate : String → String → AgentDetail Num → AgentDetail Num
  unfolding begin_fetch_agent
  navigate hub agent p = begin_fetch_agent (record p { hub_id = hub; agent_id = agent })

module _ {Num : Type 0} (host : Host Num) where
  -- `x || 5`.
  abbrev pub or_five : Num → Num
  or_five n = if host.truthy n then n else host.five

  -- The form that `fetchAgent` fills, and the bindings.
  unfoldable pub form_of : Agent Num → Form Num
  form_of a = record {
    name = text_or a.name "";
    role = text_or a.role "";
    model_id = text_or a.model_id "gpt-4o";
    system_prompt = text_or a.system_prompt "";
    temperature = get_or a.temperature host.default_temperature;
    max_tokens = get_or a.max_tokens host.default_max_tokens;
  }

  unfoldable pub binding_of : SentBinding Num → Binding Num
  binding_of b = record {
    hub_id = b.hub_id;
    collection_id = b.collection_id;
    alias = b.alias;
    top_k = elim b.top_k [ none ↦ host.five | some n ↦ or_five n ];
  }

  unfoldable pub finish_fetch_agent : Agent Num → AgentDetail Num → AgentDetail Num
  unfolding form_of binding_of
  finish_fetch_agent a p = record p {
    agent = some a;
    form = form_of a;
    bound_bindings = map binding_of (get_or a.collection_bindings []);
    is_dirty = false;
    loading = false;
  }

  -- `toggleBinding`.
  unfoldable pub toggle_binding : String → Collection → List (Binding Num) → List (Binding Num)
  toggle_binding hub col bound =
      if any (binds hub col.id) bound
      then filter (λ b. not (binds hub col.id b)) bound
      else bound
        ++ record { hub_id = hub; collection_id = col.id; alias = some col.name; top_k = host.five }
          ∷ []

  unfoldable pub set_top_k : String → String → String → List (Binding Num) → List (Binding Num)
  set_top_k hub col value bound =
      map (λ b. if binds hub col b then record b { top_k = or_five (host.parse_int value) } else b)
        bound

  -- `handleRunTest`; the answer is a text, an object's text, or an error with its message.
  unfoldable pub begin_run_test : AgentDetail Num → AgentDetail Num
  begin_run_test p =
      if is_unrouted p || (host.trim p.test_prompt == "")
      then p
      else record p { testing = true; test_result = none }
