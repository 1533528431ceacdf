-- ===== src/Wizard/Form.antt =====
-- frontend/src/components/hubs/HubCreateWizard.tsx: the four steps. The timer of the slug's check
-- and the checks that are on their way are part of the state; `toLowerCase` and what the server
-- answers are parameters.
use cont_ained.Base.{
  or_text, ℕ, ◌+◌, ◌-◌, String, Bool, true, false, ◌&&◌, ◌||◌, not, ltb, eqb, Option, none, some,
  List, [], ◌∷◌, ◌++◌, ◌==◌, any, filter, take, drop, get_elem?, if◌then◌else◌,
}
use cont_ained.Routes.{
  HubType, ingestion, agent, workflow, eval, type_name, hub_types, shell, build,
}
use cont_ained.Store.Hubs.{Hub, HubAccessLevel, use_}
use cont_ained.Wizard.Links.{eligible_targets, Reply, ok, failed}
use cont_ained.Wizard.Slug.{derived_slug, is_valid_slug}

-- The accent colour of `HUB_TYPES_INFO`.
unfoldable pub type_accent : HubType → String
type_accent ingestion = "#10b981"
type_accent agent = "#6366f1"
type_accent workflow = "#f59e0b"
type_accent eval = "#06b6d4"

-- `ACCENT_OPTIONS`.
abbrev pub accent_options : List String
accent_options = "#10b981" ∷ "#6366f1" ∷ "#f59e0b" ∷ "#06b6d4" ∷ "#ec4899" ∷ "#8b5cf6" ∷ []

pub data SlugStatus : Type 0 where
  idle checking available taken invalid : SlugStatus

-- An item of `selectedLinks`.
pub record InitialLink : Type 0 where
  pub target_hub_id : String
  pub access_level : HubAccessLevel

-- What `handleSubmit` sends.
pub record NewHub : Type 0 where
  pub hub_type : String
  pub name : String
  pub slug : String
  pub description : String
  pub accent : String
  pub initial_links : List InitialLink

-- What the component keeps; `timer` is the check that waits for 400 milliseconds, `checks` are the
-- calls of `checkSlug` without an answer, `created` are the calls of `create`, and `visited` is the
-- address that the wizard leaves for.
pub record Wizard : Type 0 where
  pub step : ℕ
  pub hub_type : String
  pub name : String
  pub slug : String
  pub is_slug_manual : Bool
  pub description : String
  pub accent : String
  pub selected_links : List InitialLink
  pub slug_status : SlugStatus
  pub is_submitting : Bool
  pub submit_error : Option String
  pub timer : Option (String × String)
  pub checks : List (String × String)
  pub created : List NewHub
  pub visited : Option String

-- The state that the component starts from; the parameter is the `type` of the address, or nothing.
abbrev pub initial_wizard : Option String → Wizard
initial_wizard type_param =
    let hub_type : String = elim type_param [
      | none ↦ "ingestion"
      | some t ↦ or_text t "ingestion"
    ] in
    record {
      step = 1;
      hub_type = hub_type;
      name = "";
      slug = "";
      is_slug_manual = false;
      description = "";
      accent = elim (hub_types hub_type) [ none ↦ "#6366f1" | some t ↦ type_accent t ];
      selected_links = [];
      slug_status = idle;
      is_submitting = false;
      submit_error = none;
      timer = none;
      checks = [];
      created = [];
      visited = none;
    }

-- The effect that derives the slug, once `name` or `isSlugManual` has changed.
unfoldable pub derive_slug : (String → String) → Wizard → Wizard
derive_slug to_lower_case w =
    if not w.is_slug_manual && not (w.name == "")
    then record w { slug = derived_slug to_lower_case w.name }
    else w

abbrev pub same_flag : Bool → Bool → Bool
same_flag true b = b
same_flag false b = not b

abbrev pub derive_effect : (String → String) → Wizard → Wizard → Wizard
derive_effect to_lower_case before w =
    if (before.name == w.name) && same_flag before.is_slug_manual w.is_slug_manual
    then w
    else derive_slug to_lower_case w

-- The effect that checks the slug, once `slug` or `hubType` has changed: the timer that runs is
-- cleared, a check that is on its way is not.
unfoldable pub check_slug : Wizard → Wizard
check_slug w =
    if w.slug == ""
    then record w { slug_status = idle; timer = none }
    else if not (is_valid_slug w.slug)
    then record w { slug_status = invalid; timer = none }
    else record w { slug_status = checking; timer = some (w.hub_type, w.slug) }

unfoldable pub check_effect : Wizard → Wizard → Wizard
unfolding check_slug
check_effect before w =
    if (before.slug == w.slug) && (before.hub_type == w.hub_type) then w else check_slug w

-- `handleTypeSelect`.
unfoldable pub handle_type_select : HubType → Wizard → Wizard
handle_type_select t w = record w {
  hub_type = type_name t;
  accent = type_accent t;
  selected_links = [];
}

-- `toggleLink`.
unfoldable pub toggle_link : String → List InitialLink → List InitialLink
toggle_link id links =
    if any (λ l. l.target_hub_id == id) links
    then filter (λ l. not (l.target_hub_id == id)) links
    else links ++ record { target_hub_id = id; access_level = use_ } ∷ []

-- `handleSubmit` up to its request.
unfoldable pub handle_submit : Wizard → Wizard
handle_submit w = record w {
  is_submitting = true;
  submit_error = none;
  created =
      w.created
      ++ record {
        hub_type = w.hub_type;
        name = w.name;
        slug = w.slug;
        description = w.description;
        accent = w.accent;
        initial_links = w.selected_links;
      }
        ∷ [];
}

-- `handleSubmit` after the answer: the type and the id of the new hub, or the error's message.
unfoldable pub finish_submit : Reply (HubType × String) → Wizard → Wizard
finish_submit (ok hub) w = record w { visited = some (build (shell hub.0 hub.1)) }
finish_submit (failed message) w = record w {
  submit_error = some (or_text message "Failed to create hub");
  is_submitting = false;
}

-- The button `Next` is disabled.
unfoldable pub blocks_next : Wizard → Bool
blocks_next w =
    eqb w.step 2
    && ((w.name == "") || elim w.slug_status [ taken ↦ true | invalid ↦ true | _ ↦ false ])

-- The timer fires: the check is on its way.
unfoldable pub fire_timer : Wizard → Wizard
fire_timer w = elim w.timer [
  | none ↦ w
  | some check ↦ record w { timer = none; checks = w.checks ++ check ∷ [] }
]

-- What an answer to a check makes of the status: `res.available`, or an error.
unfoldable pub checked_status : Reply Bool → SlugStatus
checked_status (ok free) = if free then available else taken
checked_status (failed message) = available

-- The check at place `i` is answered.
unfoldable pub finish_check : ℕ → Reply Bool → Wizard → Wizard
finish_check i reply w = elim (get_elem? w.checks i) [
  | none ↦ w
  | some check ↦ record w {
    slug_status = checked_status reply;
    checks = take i w.checks ++ drop (1 + i) w.checks;
  }
]

-- What happens to the wizard; the hubs of `toggles` are those that the store holds then.
pub data WizardEvent : Type 0 where
  selects : HubType → WizardEvent
  types_name types_slug types_description picks_accent : String → WizardEvent
  toggles : List Hub → String → WizardEvent
  goes_back goes_next submits timer_fires : WizardEvent
  check_ends : ℕ → Reply Bool → WizardEvent
  submit_ends : Reply (HubType × String) → WizardEvent

-- What a control does, if its step shows it and it is not disabled.
abbrev pub at_step : ℕ → (Wizard → Wizard) → Wizard → Wizard
at_step n f w = if eqb w.step n then f w else w

unfoldable pub handle : WizardEvent → Wizard → Wizard
handle (selects t) w = at_step 1 (handle_type_select t) w
handle (types_name v) w = at_step 2 (λ x. record x { name = v }) w
handle (types_slug v) w = at_step 2 (λ x. record x { is_slug_manual = true; slug = v }) w
handle (types_description v) w = at_step 2 (λ x. record x { description = v }) w
handle (picks_accent v) w =
    at_step 3 (λ x. if any (λ c. c == v) accent_options then record x { accent = v } else x) w
handle (toggles hubs id) w =
    at_step 4
      (λ x.
        if any (λ h. h.id == id) (eligible_targets x.hub_type hubs)
        then record x { selected_links = toggle_link id x.selected_links }
        else x)
      w
handle goes_back w =
    if ltb 1 w.step && not w.is_submitting then record w { step = w.step - 1 } else w
handle goes_next w =
    if ltb w.step 4 && not (blocks_next w) then record w { step = w.step + 1 } else w
handle submits w = if not (ltb w.step 4) && not w.is_submitting then handle_submit w else w
handle timer_fires w = fire_timer w
handle (check_ends i reply) w = finish_check i reply w
handle (submit_ends reply) w = if w.is_submitting then finish_submit reply w else w

-- An event and the effects that follow it.
unfoldable pub wizard_step : (String → String) → WizardEvent → Wizard → Wizard
wizard_step to_lower_case e w = check_effect w (derive_effect to_lower_case w (handle e w))
