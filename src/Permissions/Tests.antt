-- ===== src/Permissions/Tests.antt =====
-- The capability matrix at concrete roles, actions and hubs.
use cont_ained.Base.{◌≡◌, ◌↔◌, refl, true, false, some, none, arith}
use cont_ained.Permissions.{
  owner, maintainer, contributor, viewer, view, edit_resource, archive_hub, role, archived,
  role_ladder, evaluate, HubContextValue, can, deny_reason, gated, children, disabled_children,
  fallback, banner, archived_banner,
}
use cont_ained.Permissions.Laws.{
  Permits, evaluate-allowed_iff, evaluate-reason, evaluate_mono, archived_banner_locked,
  gated-cases,
}

abbrev archived_admin : HubContextValue
archived_admin = record { hub_role = none; is_platform_admin = true; is_archived = true }

abbrev live_viewer : HubContextValue
live_viewer = record { hub_role = some viewer; is_platform_admin = false; is_archived = false }

gated_test :
    (gated archived_admin edit_resource true ≡ disabled_children)
    × (gated archived_admin view true ≡ children)
    × (gated live_viewer edit_resource true ≡ fallback)
unfolding gated
gated_test = (refl, refl, refl)

evaluate-allowed_iff_example :
    ((evaluate (some contributor) edit_resource true false).allowed ≡ true)
    ↔ Permits (some contributor) edit_resource true false
evaluate-allowed_iff_example = evaluate-allowed_iff (some contributor) edit_resource true false

evaluate-reason_test :
    (((evaluate (some owner) archive_hub true false).reason ≡ none)
      ↔ ((evaluate (some owner) archive_hub true false).allowed ≡ true))
    × (((evaluate (some owner) archive_hub true false).reason ≡ some archived) ↔ (
        ((evaluate (some owner) archive_hub true false).allowed ≡ false)
        × ((evaluate (some owner) archive_hub false false).allowed ≡ true)))
    × (((evaluate (some owner) archive_hub true false).reason ≡ some role)
        ↔ ((evaluate (some owner) archive_hub false false).allowed ≡ false))
evaluate-reason_test = evaluate-reason (some owner) archive_hub true false

evaluate_mono_test : (evaluate (some maintainer) edit_resource false false).allowed ≡ true
unfolding evaluate
evaluate_mono_test =
    evaluate_mono contributor maintainer edit_resource false (unfold role_ladder in omega arith)
      refl

archived_banner_locked_test : archived_banner archived_admin ≡ banner false
archived_banner_locked_test = archived_banner_locked archived_admin refl

gated-cases_test :
    ((gated archived_admin edit_resource true ≡ children)
      ↔ (can archived_admin edit_resource ≡ true))
    × ((gated archived_admin edit_resource true ≡ disabled_children)
        ↔ ((true ≡ true) × (deny_reason archived_admin edit_resource ≡ some archived)))
gated-cases_test = gated-cases archived_admin edit_resource true
