-- ===== src/Wizard/Status.antt =====
-- The status of the slug in HubCreateWizard.tsx against the slug that stands in the form.
use mathlib.Core.Path.{subst}
use cont_ained.Base.{
  ℕ, String, Bool, true, ◌&&◌, not, Option, none, some, List, [], ◌∷◌, ◌==◌, ◌≡◌, sym, arith, All,
  All-append, All-take, All-drop, All-get_elem, ◌+◌, Bool-cases, Option-cases, inl, inr, get_elem?,
  take, drop, eq_iff,
}
use cont_ained.Wizard.Links.{Reply, ok, failed}
use cont_ained.Wizard.Slug.{is_valid_slug}
use cont_ained.Wizard.Form.{
  Wizard, SlugStatus, idle, checking, available, taken, invalid, WizardEvent, selects, types_name,
  types_slug, types_description, picks_accent, toggles, goes_back, goes_next, submits, timer_fires,
  check_ends, submit_ends, derive_effect, derive_slug, check_effect, check_slug, checked_status,
  handle, handle_submit, handle_type_select, finish_submit, finish_check, fire_timer, wizard_step,
}

-- What the status says of the slug: none is typed, it has not the form of a slug, or it has.
unfoldable pub fits : String → SlugStatus → Bool
fits slug idle = slug == ""
fits slug invalid = not (slug == "") && not (is_valid_slug slug)
fits slug checking = is_valid_slug slug
fits slug available = is_valid_slug slug
fits slug taken = is_valid_slug slug

-- A check that waits or is on its way is one of a slug that has the form.
abbrev Waits : Option (String × String) → Type 0
Waits none = Unit
Waits (some c) = is_valid_slug c.1 ≡ true

abbrev pub Checks : Option (String × String) → List (String × String) → Type 0
Checks timer checks = Waits timer × All (λ c. is_valid_slug c.1 ≡ true) checks

-- The status fits the slug.
abbrev pub IsChecked : Wizard → Type 0
IsChecked w = (fits w.slug w.slug_status ≡ true) × Checks w.timer w.checks

check_slug-IsChecked :
    (w : Wizard) → All (λ c. is_valid_slug c.1 ≡ true) w.checks → IsChecked (check_slug w)
unfolding check_slug fits
check_slug-IsChecked w h = ground arith

check_effect-IsChecked :
    (before w : Wizard)
    → fits before.slug w.slug_status ≡ true
    → Checks w.timer w.checks
    → IsChecked (check_effect before w)
unfolding check_effect check_slug
check_effect-IsChecked before w f h =
    elim (Bool-cases ((before.slug == w.slug) && (before.hub_type == w.hub_type))) [
      | inl e ↦ rw e (
        subst (λ k. fits k w.slug_status ≡ true) ((eq_iff before.slug w.slug).0 (ground arith)) f,
        h,
      )
      | inr e ↦ rw e (check_slug-IsChecked w h.1)
    ]

-- The event is no answer to a check, or one to a check of the slug that stands in the form.
abbrev pub IsCurrent : WizardEvent → Wizard → Type 0
IsCurrent e w = elim e [
  | check_ends i reply ↦ (c : String × String) → get_elem? w.checks i ≡ some c → c.1 ≡ w.slug
  | _ ↦ Unit
]

-- What the effects that follow read of a state.
abbrev Slug : Type 0
Slug = SlugStatus × (Option (String × String) × List (String × String))

abbrev slug_of : Wizard → Slug
slug_of w = (w.slug_status, (w.timer, w.checks))

derive_effect-slug_of :
    (to_lower_case : String → String) (before w : Wizard)
    → slug_of (derive_effect to_lower_case before w) ≡ slug_of w
unfolding derive_slug
derive_effect-slug_of to_lower_case before w = ground arith

abbrev Ready : String → Slug → Type 0
Ready slug s = (fits slug s.0 ≡ true) × Checks s.1.0 s.1.1

fire_timer-Ready : (w : Wizard) → IsChecked w → Ready w.slug (slug_of (fire_timer w))
unfolding fire_timer
fire_timer-Ready w h = elim (Option-cases w.timer) [
  | inl e ↦ rw e (h.0, (tt, h.1.1))
  | inr (c, e) ↦ rw e (
    h.0,
    (
      tt,
      All-append (λ c. is_valid_slug c.1 ≡ true) w.checks (c ∷ []) h.1.1 (subst Waits e h.1.0, tt),
    ),
  )
]

checked_status-fits :
    (reply : Reply Bool) (slug : String)
    → is_valid_slug slug ≡ true
    → fits slug (checked_status reply) ≡ true
unfolding checked_status fits
checked_status-fits (ok free) slug h = ground arith
checked_status-fits (failed message) slug h = h

finish_check-Ready :
    (i : ℕ) (reply : Reply Bool) (w : Wizard)
    → IsCurrent (check_ends i reply) w
    → IsChecked w
    → Ready w.slug (slug_of (finish_check i reply w))
unfolding finish_check
finish_check-Ready i reply w c h = elim (Option-cases (get_elem? w.checks i)) [
  | inl e ↦ rw (e, finish_check) h
  | inr (k, e) ↦
      rw (e, finish_check)
        (
          checked_status-fits reply w.slug (
              subst (λ s. is_valid_slug s ≡ true) (c k e)
                (All-get_elem (λ c. is_valid_slug c.1 ≡ true) i w.checks k h.1.1 e)),
          (
            h.1.0,
            All-append (λ c. is_valid_slug c.1 ≡ true) (take i w.checks) (drop (1 + i) w.checks)
                (All-take (λ c. is_valid_slug c.1 ≡ true) i w.checks h.1.1)
                (All-drop (λ c. is_valid_slug c.1 ≡ true) (1 + i) w.checks h.1.1),
          ),
        )
]

handle-Ready :
    (e : WizardEvent) (w : Wizard)
    → IsCurrent e w
    → IsChecked w
    → Ready w.slug (slug_of (handle e w))
unfolding handle handle_type_select handle_submit finish_submit
handle-Ready (selects t) w c h = ground arith
handle-Ready (types_name v) w c h = ground arith
handle-Ready (types_slug v) w c h = ground arith
handle-Ready (types_description v) w c h = ground arith
handle-Ready (picks_accent v) w c h = ground arith
handle-Ready (toggles hubs id) w c h = ground arith
handle-Ready goes_back w c h = ground arith
handle-Ready goes_next w c h = ground arith
handle-Ready submits w c h = ground arith
handle-Ready timer_fires w c h = fire_timer-Ready w h
handle-Ready (check_ends i reply) w c h = finish_check-Ready i reply w c h
handle-Ready (submit_ends reply) w c h = ground arith

-- If the status says of the slug in the form whether it is empty, malformed or well-formed, and the
-- checks that wait are of well-formed slugs, then that is so after every event but the answer to a
-- check of another slug.
pub wizard_step-IsChecked :
    (to_lower_case : String → String) (e : WizardEvent) (w : Wizard)
    → IsCurrent e w
    → IsChecked w
    → IsChecked (wizard_step to_lower_case e w)
unfolding wizard_step
wizard_step-IsChecked to_lower_case e w c h =
    check_effect-IsChecked w (derive_effect to_lower_case w (handle e w)) ready.0 ready.1
  where
    ready : Ready w.slug (slug_of (derive_effect to_lower_case w (handle e w)))
    ready =
        subst (Ready w.slug) (sym (derive_effect-slug_of to_lower_case w (handle e w)))
          (handle-Ready e w c h)
