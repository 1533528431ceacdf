-- ===== src/Wizard/Stale.antt =====
-- The check of a slug that is on its way when the slug changes, in HubCreateWizard.tsx.
use cont_ained.Base.{
  ℕ, String, Bool, true, false, some, List, [], ◌∷◌, ◌==◌, ◌≡◌, refl, sym, ap, ◌∙◌, arith, eq_refl,
}
use cont_ained.Wizard.Links.{Reply}
use cont_ained.Wizard.Form.{
  Wizard, available, types_slug, timer_fires, check_ends, derive_effect, derive_slug, check_effect,
  check_slug, checked_status, handle, fire_timer, finish_check, wizard_step, same_flag, blocks_next,
}

same_flag_refl : (b : Bool) → same_flag b b ≡ true
same_flag_refl true = refl
same_flag_refl false = refl

-- What the effects depend on.
abbrev Inputs : Type 0
Inputs = (String × Bool) × (String × String)

abbrev inputs : Wizard → Inputs
inputs w = ((w.name, w.is_slug_manual), (w.slug, w.hub_type))

-- No effect runs when nothing that it depends on has changed.
effects_idle :
    (to_lower_case : String → String) (before w : Wizard)
    → inputs w ≡ inputs before
    → check_effect before (derive_effect to_lower_case before w) ≡ w
unfolding check_effect
effects_idle to_lower_case before w e =
    rw
      (
        sym (ap (λ i. i.0.0) e),
        sym (ap (λ i. i.0.1) e),
        sym (ap (λ i. i.1.0) e),
        sym (ap (λ i. i.1.1) e),
        same_flag_refl w.is_slug_manual,
        eq_refl w.name,
        eq_refl w.slug,
        eq_refl w.hub_type,
      )
      refl

wizard_step-fires :
    (to_lower_case : String → String) (w : Wizard)
    → wizard_step to_lower_case timer_fires w ≡ fire_timer w
unfolding wizard_step handle fire_timer
wizard_step-fires to_lower_case w = effects_idle to_lower_case w (fire_timer w) same
  where
    same : inputs (fire_timer w) ≡ inputs w
    same = ground arith

wizard_step-check_ends :
    (to_lower_case : String → String) (i : ℕ) (reply : Reply Bool) (w : Wizard)
    → wizard_step to_lower_case (check_ends i reply) w ≡ finish_check i reply w
unfolding wizard_step handle finish_check
wizard_step-check_ends to_lower_case i reply w =
    effects_idle to_lower_case w (finish_check i reply w) same
  where
    same : inputs (finish_check i reply w) ≡ inputs w
    same = ground arith

-- What the form and the checks on their way are after a slug is typed.
abbrev Typed : Type 0
Typed = (String × ℕ) × (String × List (String × String))

abbrev typed : Wizard → Typed
typed w = ((w.slug, w.step), (w.name, w.checks))

wizard_step-types_slug :
    (to_lower_case : String → String) (slug : String) (w : Wizard)
    → w.step ≡ 2
    → typed (wizard_step to_lower_case (types_slug slug) w) ≡ ((slug, 2), (w.name, w.checks))
unfolding wizard_step handle check_effect derive_slug check_slug
wizard_step-types_slug to_lower_case slug w h = ground (arith, h)

answered :
    (x : Wizard) (slug name : String) (c : String × String) (reply : Reply Bool)
    → typed x ≡ ((slug, 2), (name, c ∷ []))
    → (name == "") ≡ false
    → checked_status reply ≡ available
    → (((finish_check 0 reply x).slug ≡ slug) × ((finish_check 0 reply x).slug_status ≡ available))
      × (blocks_next (finish_check 0 reply x) ≡ false)
unfolding finish_check blocks_next
answered x slug name c reply e n a =
    rw (ap (λ t. t.1.1) e, ap (λ t. t.0.1) e, ap (λ t. t.1.0) e, a, n)
      ((ap (λ t. t.0.0) e, refl), refl)

fire_timer-typed :
    (w : Wizard) (c : String × String)
    → w.step ≡ 2
    → w.timer ≡ some c
    → w.checks ≡ []
    → typed (fire_timer w) ≡ ((w.slug, 2), (w.name, c ∷ []))
unfolding fire_timer
fire_timer-typed w c h t k = rw (t, k, h) refl

-- In the second step, with a name typed and the check of a slug waiting: if the check is sent,
-- another text is typed as the slug, and then the answer says that the slug is free, or the check
-- fails, the form shows `available` and `Next` is not disabled, whatever was typed.
pub stale_check :
    (to_lower_case : String → String) (w : Wizard) (c : String × String) (slug : String)
    (reply : Reply Bool)
    → w.step ≡ 2
    → (w.name == "") ≡ false
    → w.timer ≡ some c
    → w.checks ≡ []
    → checked_status reply ≡ available
    → let after : Wizard =
        wizard_step to_lower_case
          (check_ends 0 reply)
          (wizard_step to_lower_case (types_slug slug) (wizard_step to_lower_case timer_fires w)) in
      ((after.slug ≡ slug) × (after.slug_status ≡ available)) × (blocks_next after ≡ false)
stale_check to_lower_case w c slug reply h n t k a =
    rw
      (
        wizard_step-fires to_lower_case w,
        wizard_step-check_ends to_lower_case 0 reply
            (wizard_step to_lower_case (types_slug slug) (fire_timer w)),
      )
      (answered (wizard_step to_lower_case (types_slug slug) (fire_timer w)) slug w.name c reply
        (wizard_step-types_slug to_lower_case slug (fire_timer w) (ap (λ x. x.0.1) fired)
          ∙ ap (λ x. ((slug, 2), x.1)) fired)
        n a)
  where
    fired : typed (fire_timer w) ≡ ((w.slug, 2), (w.name, c ∷ []))
    fired = fire_timer-typed w c h t k
