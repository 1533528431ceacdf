-- ===== src/Wizard/Flow.antt =====
-- The steps of the wizard in HubCreateWizard.tsx, and what it asks the server to create.
use cont_ained.Base.{
  ℕ, ◌≤◌, String, true, false, not, ◌&&◌, ltb, eqb, List, [], ◌∷◌, ◌==◌, ◌≡◌, sym, arith, All,
  All-append, All-filter, Bool-cases, inl, inr, any,
}
use mathlib.Core.Path.{subst}
use cont_ained.Store.Hubs.{Hub, use_}
use cont_ained.Wizard.Links.{eligible_targets}
use cont_ained.Wizard.Form.{
  Wizard, NewHub, InitialLink, WizardEvent, selects, types_name, types_slug, types_description,
  picks_accent, toggles, goes_back, goes_next, submits, timer_fires, check_ends, submit_ends,
  blocks_next, derive_slug, check_effect, check_slug, handle, handle_submit, handle_type_select,
  toggle_link, finish_submit, finish_check, fire_timer, wizard_step,
}

-- What the effects leave alone.
abbrev pub Core : Type 0
Core = (ℕ × String) × ((List NewHub × String) × List InitialLink)

abbrev pub core : Wizard → Core
core w = ((w.step, w.name), ((w.created, w.hub_type), w.selected_links))

check_slug-core : (w : Wizard) → core (check_slug w) ≡ core w
unfolding check_slug
check_slug-core w = ground arith

pub wizard_step-core :
    (to_lower_case : String → String) (e : WizardEvent) (w : Wizard)
    → core (wizard_step to_lower_case e w) ≡ core (handle e w)
unfolding wizard_step check_effect derive_slug check_slug
wizard_step-core to_lower_case e w = ground arith

-- The step is one of the four, there is a name from the third on, and every hub that was asked for
-- has one.
abbrev pub IsNamed : Core → Type 0
IsNamed c =
    ((1 ≤ c.0.0) × (c.0.0 ≤ 4))
    × ((3 ≤ c.0.0 → (c.0.1 == "") ≡ false) × All (λ n. (n.name == "") ≡ false) c.1.0.0)

-- What `handleSubmit` asks for.
abbrev asked_of : Wizard → NewHub
asked_of w = record {
  hub_type = w.hub_type;
  name = w.name;
  slug = w.slug;
  description = w.description;
  accent = w.accent;
  initial_links = w.selected_links;
}

handle-IsNamed : (e : WizardEvent) (w : Wizard) → IsNamed (core w) → IsNamed (core (handle e w))
unfolding handle handle_type_select handle_submit finish_submit finish_check fire_timer blocks_next
handle-IsNamed (selects t) w h = ground arith
handle-IsNamed (types_name v) w h = ground arith
handle-IsNamed (types_slug v) w h = ground arith
handle-IsNamed (types_description v) w h = ground arith
handle-IsNamed (picks_accent v) w h = ground arith
handle-IsNamed (toggles hubs id) w h = ground arith
handle-IsNamed goes_back w h = ground arith
handle-IsNamed goes_next w h = ground arith
handle-IsNamed submits w h = elim (Bool-cases (not (ltb w.step 4) && not w.is_submitting)) [
  | inl e ↦ rw e (
    h.0,
    (
      h.1.0,
      All-append (λ n. (n.name == "") ≡ false) w.created (asked_of w ∷ []) h.1.1
          (h.1.0 (ground (arith, e)), tt),
    ),
  )
  | inr e ↦ rw e h
]
handle-IsNamed timer_fires w h = ground arith
handle-IsNamed (check_ends i reply) w h = ground arith
handle-IsNamed (submit_ends reply) w h = ground arith

-- If the step is one of the four, there is a name from the third step on and every hub that the
-- wizard has asked the server to create has a name, then all that is so after every event.
pub wizard_step-IsNamed :
    (to_lower_case : String → String) (e : WizardEvent) (w : Wizard)
    → IsNamed (core w)
    → IsNamed (core (wizard_step to_lower_case e w))
wizard_step-IsNamed to_lower_case e w h =
    subst IsNamed (sym (wizard_step-core to_lower_case e w)) (handle-IsNamed e w h)

-- Every link leads to a hub that a hub of this type may consume and that is not archived.
abbrev pub Offered : List Hub → String → List InitialLink → Type 0
Offered hubs t links =
    All (λ l. any (λ h. h.id == l.target_hub_id) (eligible_targets t hubs) ≡ true) links

abbrev pub IsOffered : List Hub → Core → Type 0
IsOffered hubs c =
    Offered hubs c.1.0.1 c.1.1 × All (λ n. Offered hubs n.hub_type n.initial_links) c.1.0.0

-- The event does not see other hubs than these.
abbrev pub SeesOnly : List Hub → WizardEvent → Type 0
SeesOnly hubs e = elim e [ toggles seen id ↦ seen ≡ hubs | _ ↦ Unit ]

toggle_link-Offered :
    (hubs : List Hub) (t id : String) (links : List InitialLink)
    → any (λ h. h.id == id) (eligible_targets t hubs) ≡ true
    → Offered hubs t links
    → Offered hubs t (toggle_link id links)
unfolding toggle_link
toggle_link-Offered hubs t id links e h =
    elim (Bool-cases (any (λ l. l.target_hub_id == id) links)) [
      | inl k ↦ rw k (
          All-filter (λ l. any (λ h. h.id == l.target_hub_id) (eligible_targets t hubs) ≡ true)
            (λ l. not (l.target_hub_id == id)) links h)
      | inr k ↦ rw k (
          All-append (λ l. any (λ h. h.id == l.target_hub_id) (eligible_targets t hubs) ≡ true)
            links (record { target_hub_id = id; access_level = use_ } ∷ []) h (e, tt))
    ]

-- A click on the card of a hub.
toggles-IsOffered :
    (hubs : List Hub) (id : String) (w : Wizard)
    → IsOffered hubs (core w)
    → IsOffered hubs (core (handle (toggles hubs id) w))
unfolding handle
toggles-IsOffered hubs id w h = elim (Bool-cases (eqb w.step 4)) [
  | inl k ↦ rw k (elim (Bool-cases (any (λ h. h.id == id) (eligible_targets w.hub_type hubs))) [
    | inl e ↦ rw e (toggle_link-Offered hubs w.hub_type id w.selected_links e h.0, h.1)
    | inr e ↦ rw e h
  ])
  | inr k ↦ rw k h
]

handle-IsOffered :
    (hubs : List Hub) (e : WizardEvent) (w : Wizard)
    → SeesOnly hubs e
    → IsOffered hubs (core w)
    → IsOffered hubs (core (handle e w))
unfolding handle handle_type_select handle_submit finish_submit finish_check fire_timer blocks_next
handle-IsOffered hubs (selects t) w s h = ground arith
handle-IsOffered hubs (types_name v) w s h = ground arith
handle-IsOffered hubs (types_slug v) w s h = ground arith
handle-IsOffered hubs (types_description v) w s h = ground arith
handle-IsOffered hubs (picks_accent v) w s h = ground arith
handle-IsOffered hubs (toggles seen id) w s h =
    subst (λ l. IsOffered hubs (core (handle (toggles l id) w))) (sym s)
      (toggles-IsOffered hubs id w h)
handle-IsOffered hubs goes_back w s h = ground arith
handle-IsOffered hubs goes_next w s h = ground arith
handle-IsOffered hubs submits w s h =
    elim (Bool-cases (not (ltb w.step 4) && not w.is_submitting)) [
      | inl e ↦ rw e (
        h.0,
        All-append (λ n. Offered hubs n.hub_type n.initial_links) w.created (asked_of w ∷ []) h.1
            (h.0, tt),
      )
      | inr e ↦ rw e h
    ]
handle-IsOffered hubs timer_fires w s h = ground arith
handle-IsOffered hubs (check_ends i reply) w s h = ground arith
handle-IsOffered hubs (submit_ends reply) w s h = ground arith

-- If every link that is selected leads to a hub that is not archived and that a hub of the chosen
-- type may consume, and so does every link of the hubs that were asked for, then that is so after
-- every event, as long as the store's hubs stay the same.
pub wizard_step-IsOffered :
    (to_lower_case : String → String) (hubs : List Hub) (e : WizardEvent) (w : Wizard)
    → SeesOnly hubs e
    → IsOffered hubs (core w)
    → IsOffered hubs (core (wizard_step to_lower_case e w))
wizard_step-IsOffered to_lower_case hubs e w s h =
    subst (IsOffered hubs) (sym (wizard_step-core to_lower_case e w))
      (handle-IsOffered hubs e w s h)
