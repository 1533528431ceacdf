-- ===== src/Wizard/Links.antt =====
-- frontend/src/components/hubs/HubLinksPanel.tsx, and the table of legal links that
-- HubCreateWizard.tsx has of its own.
use cont_ained.Base.{
  or_text, String, Bool, true, false, ◌&&◌, not, Option, none, some, List, [], ◌∷◌, ◌==◌, any,
  filter, if◌then◌else◌,
}
use cont_ained.Routes.{HubType, ingestion, agent, workflow, eval, type_name, hub_types}
use cont_ained.Store.Hubs.{Hub, HubLink, HubAccessLevel, use_}

-- `LEGAL_LINK_TARGETS` of the wizard.
unfoldable pub legal_link_targets : HubType → List HubType
legal_link_targets ingestion = []
legal_link_targets agent = ingestion ∷ []
legal_link_targets workflow = agent ∷ ingestion ∷ []
legal_link_targets eval = workflow ∷ agent ∷ []

-- `LEGAL_LINK_TARGETS[t] || []` for a type that the address of the page names.
unfoldable pub legal_targets_of : String → List HubType
legal_targets_of t = elim (hub_types t) [ none ↦ [] | some k ↦ legal_link_targets k ]

-- `ALLOWED_LINK_TARGETS` of the panel.
unfoldable pub allowed_link_targets : HubType → List HubType
allowed_link_targets agent = ingestion ∷ []
allowed_link_targets workflow = agent ∷ ingestion ∷ []
allowed_link_targets eval = workflow ∷ agent ∷ []
allowed_link_targets ingestion = []

-- `types.includes(t)`.
abbrev pub includes_type : List HubType → HubType → Bool
includes_type types t = any (λ k. type_name k == type_name t) types

-- `eligibleTargetHubs` of the wizard: the hub itself does not exist yet.
unfoldable pub eligible_targets : String → List Hub → List Hub
eligible_targets t hubs =
    filter (λ h. includes_type (legal_targets_of t) h.hub_type && not h.is_archived) hubs

-- `eligibleTargetHubs` of the panel.
unfoldable pub eligible_target_hubs : Hub → List Hub → List Hub
eligible_target_hubs hub hubs =
    filter
      (λ h.
        not (h.id == hub.id)
        && (includes_type (allowed_link_targets hub.hub_type) h.hub_type && not h.is_archived))
      hubs

-- What the panel keeps.
pub record LinksPanel : Type 0 where
  pub outgoing_links : List HubLink
  pub incoming_links : List HubLink
  pub loading : Bool
  pub error : Option String
  pub is_create_open : Bool
  pub target_hub_id : String
  pub access_level : HubAccessLevel
  pub create_submitting : Bool
  pub create_error : Option String

abbrev pub initial_panel : LinksPanel
initial_panel = record {
  outgoing_links = [];
  incoming_links = [];
  loading = true;
  error = none;
  is_create_open = false;
  target_hub_id = "";
  access_level = use_;
  create_submitting = false;
  create_error = none;
}

-- A request that is answered, or that fails with a message.
pub data Reply {ℓ} (A : Type ℓ) : Type ℓ where
  ok : A → Reply A
  failed : String → Reply A

-- `fetchLinks` up to its first `await`, and what follows it: the two lists come together or not at
-- all.
unfoldable pub start_fetch : LinksPanel → LinksPanel
start_fetch p = record p { loading = true; error = none }

unfoldable pub finish_fetch : Reply (List HubLink × List HubLink) → LinksPanel → LinksPanel
finish_fetch (ok lists) p = record p {
  outgoing_links = lists.0;
  incoming_links = lists.1;
  loading = false;
}
finish_fetch (failed message) p = record p {
  error = some (or_text message "Failed to load hub links");
  loading = false;
}

-- `handleCreateLink` up to its request, if it gets there, and what follows the answer.
unfoldable pub start_create : LinksPanel → LinksPanel × Bool
start_create p =
    if p.target_hub_id == ""
    then (p, false)
    else (record p { create_submitting = true; create_error = none }, true)

unfoldable pub finish_create : Reply HubLink → LinksPanel → LinksPanel
unfolding start_fetch
finish_create (ok link) p =
    record (start_fetch (record p { is_create_open = false; target_hub_id = "" })) {
      create_submitting = false;
    }
finish_create (failed message) p = record p {
  create_error = some (or_text message "Failed to create hub link");
  create_submitting = false;
}

-- `handleRevokeLink` after the answer of its request.
unfoldable pub finish_revoke : Reply Bool → LinksPanel → LinksPanel
finish_revoke (ok done) p = start_fetch p
finish_revoke (failed message) p = p

-- What the form of the panel sets.
abbrev pub open_create : LinksPanel → LinksPanel
open_create p = record p { is_create_open = true }

abbrev pub cancel_create : LinksPanel → LinksPanel
cancel_create p = record p { is_create_open = false }

abbrev pub pick_target : String → LinksPanel → LinksPanel
pick_target id p = record p { target_hub_id = id }

abbrev pub pick_access : HubAccessLevel → LinksPanel → LinksPanel
pick_access level p = record p { access_level = level }
