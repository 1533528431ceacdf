-- ===== src/Wizard/Tests.antt =====
-- The wizard and the panel of links on small inputs.
use cont_ained.Base.{
  ◌≤◌, String, true, false, ◌&&◌, none, some, List, [], ◌∷◌, ◌==◌, ◌≡◌, ◌≢◌, refl, leb, arith,
  filter, not,
}
use cont_ained.Permissions.{owner}
use cont_ained.Routes.{HubType, ingestion, agent, workflow, type_name, hub_types}
use cont_ained.Store.Hubs.{Hub}
use cont_ained.Wizard.Slug.{
  derived_slug, dash_runs, strip_first, strip_last, is_word, is_dash, is_valid_slug, slug_length,
  all_slug,
}
use cont_ained.Wizard.Shape.{is_slug, derived_slug_lem}
use cont_ained.Wizard.Links.{ok, eligible_targets, eligible_target_hubs, allowed_link_targets}
use cont_ained.Wizard.Matrix.{here, link, chain_ends, eligible_target_hubs-eligible_targets}
use cont_ained.Wizard.Form.{
  Wizard, initial_wizard, available, checking, goes_next, toggles, types_slug, check_ends,
  timer_fires, wizard_step, blocks_next, checked_status,
}
use cont_ained.Wizard.Flow.{core, IsNamed, IsOffered, wizard_step-IsNamed, wizard_step-IsOffered}
use cont_ained.Wizard.Status.{fits, IsChecked, wizard_step-IsChecked}
use cont_ained.Wizard.Stale.{stale_check}

abbrev same_text : String → String
same_text s = s

slug_test : derived_slug same_text "-- my  kb, v2! " ≡ "my-kb-v2"
unfolding derived_slug dash_runs strip_first strip_last is_word is_dash
slug_test = refl

derived_slug_lem_example :
    let slug : String = derived_slug same_text "-- my  kb, v2! " in
    (is_slug slug ≡ true)
    × (is_valid_slug slug ≡ (leb 2 (slug_length slug) && leb (slug_length slug) 64))
derived_slug_lem_example = derived_slug_lem same_text "-- my  kb, v2! "

abbrev hub_of : HubType → String → Hub
hub_of t name = record {
  id = name;
  slug = name;
  name = name;
  hub_type = t;
  description = none;
  accent = none;
  icon = none;
  owner_id = "u1";
  is_archived = false;
  my_role = owner;
  resource_count = none;
  resource_counts = none;
  member_count = 1;
  last_activity_at = none;
  created_at = "2025-01-01";
  updated_at = "2025-01-01";
}

abbrev three_hubs : List Hub
three_hubs = hub_of ingestion "docs" ∷ hub_of agent "bots" ∷ hub_of workflow "flows" ∷ []

eligible_target_hubs-eligible_targets_test :
    eligible_target_hubs (hub_of workflow "flows") three_hubs
    ≡ filter (λ h. not (h.id == "flows")) (eligible_targets (type_name workflow) three_hubs)
eligible_target_hubs-eligible_targets_test =
    eligible_target_hubs-eligible_targets (hub_of workflow "flows") three_hubs

chain_ends_example :
    (2 ≤ 3) × (1 ≤ 2 → (hub_of workflow "flows").hub_type ≢ (hub_of ingestion "docs").hub_type)
unfolding eligible_target_hubs allowed_link_targets type_name
chain_ends_example =
    chain_ends three_hubs 2 (hub_of workflow "flows") (hub_of ingestion "docs")
      (link {b = hub_of agent "bots"} refl (link {b = hub_of ingestion "docs"} refl here))

-- The second step, with a name and a slug that is about to be checked.
abbrev named_wizard : Wizard
named_wizard = record (initial_wizard none) {
  step = 2;
  name = "my kb";
  slug = "my-kb";
  slug_status = checking;
  timer = some ("ingestion", "my-kb");
}

wizard_step-IsNamed_test : IsNamed (core (wizard_step same_text goes_next named_wizard))
unfolding hub_types
wizard_step-IsNamed_test =
    wizard_step-IsNamed same_text goes_next named_wizard
      ((omega arith, omega arith), (λ k. refl, tt))

abbrev linking_wizard : Wizard
linking_wizard = record named_wizard { step = 4; hub_type = "workflow" }

wizard_step-IsOffered_example :
    IsOffered three_hubs (core (wizard_step same_text (toggles three_hubs "bots") linking_wizard))
unfolding hub_types
wizard_step-IsOffered_example =
    wizard_step-IsOffered same_text three_hubs (toggles three_hubs "bots") linking_wizard refl
      (tt, tt)

wizard_step-IsChecked_example : IsChecked (wizard_step same_text timer_fires named_wizard)
unfolding fits is_valid_slug is_word is_dash all_slug slug_length hub_types
wizard_step-IsChecked_example =
    wizard_step-IsChecked same_text timer_fires named_wizard tt (refl, (refl, tt))

stale_check_example :
    let after : Wizard =
      wizard_step same_text (check_ends 0 (ok true)) (
        wizard_step same_text
          (types_slug "A/B")
          (wizard_step same_text timer_fires named_wizard)) in
    ((after.slug ≡ "A/B") × (after.slug_status ≡ available)) × (blocks_next after ≡ false)
unfolding hub_types checked_status
stale_check_example =
    stale_check same_text named_wizard ("ingestion", "my-kb") "A/B" (ok true) refl refl refl refl
      refl
