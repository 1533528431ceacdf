-- ===== src/Suite/Shown.antt =====
-- frontend/src/components/hubs/eval/SuiteDetailWorkspace.tsx: the cases and the buttons that the page
-- shows, and how frontend/src/hooks/useHubPermissions.ts answers for an action that it does not list.
use cont_ained.Base.{
  String, Bool, false, ◌&&◌, ◌||◌, not, Option, none, some, List, [], ◌∷◌, ◌==◌, ◌≡◌, refl, arith,
  filter, if◌then◌else◌,
}
use cont_ained.Permissions.{
  HubAction, view, run_readonly, create_resource, edit_resource, execute, delete_resource,
  manage_datastores, manage_members, manage_links, rename_hub, archive_hub, transfer_ownership,
  hard_delete_hub, HubContextValue, can,
}
use cont_ained.Base.Dict.{lookup}
use cont_ained.Suite.Data.{Host, TestCase}

-- `o?.toLowerCase().includes(q)`.
abbrev mentions : {Num : Type 0} → Host Num → String → Option String → Bool
mentions host q none = false
mentions host q (some s) = host.includes (host.to_lower_case s) q

unfoldable pub filtered_cases : {Num : Type 0} → Host Num → String → List TestCase → List TestCase
filtered_cases host search_query cases =
    let q : String = host.trim (host.to_lower_case search_query) in
    if host.trim search_query == ""
    then cases
    else filter
        (λ c.
          mentions host q c.input_query
          || (mentions host q c.expected_output
              || (mentions host q c.expected_context || mentions host q c.node_id)))
        cases

-- The keys of `ACTION_MIN_ROLE`.
abbrev action_names : List (String × HubAction)
action_names =
    ("view", view)
    ∷ ("run_readonly", run_readonly)
    ∷ ("create_resource", create_resource)
    ∷ ("edit_resource", edit_resource)
    ∷ ("execute", execute)
    ∷ ("delete_resource", delete_resource)
    ∷ ("manage_datastores", manage_datastores)
    ∷ ("manage_members", manage_members)
    ∷ ("manage_links", manage_links)
    ∷ ("rename_hub", rename_hub)
    ∷ ("archive_hub", archive_hub)
    ∷ ("transfer_ownership", transfer_ownership)
    ∷ ("hard_delete_hub", hard_delete_hub)
    ∷ []

-- `can` on any text: without a key `ROLE_LADDER[minRole]` is `undefined`, and no number is at least
-- `undefined`.
unfoldable pub can_text : HubContextValue → String → Bool
unfolding can lookup
can_text ctx action = elim (lookup action action_names) [ none ↦ false | some a ↦ can ctx a ]

-- The buttons that add, edit and delete a test case.
unfoldable pub offers_add : HubContextValue → Bool
unfolding can_text
offers_add ctx = can_text ctx "create_resource" && not ctx.is_archived

unfoldable pub offers_edit : HubContextValue → Bool
unfolding can_text
offers_edit ctx = can_text ctx "update_resource" && not ctx.is_archived

unfoldable pub offers_delete : HubContextValue → Bool
unfolding can_text
offers_delete ctx = can_text ctx "delete_resource" && not ctx.is_archived

-- Whoever may edit resources in the hub is offered to add and to delete a test case, and nobody else
-- is; to edit one is offered to nobody.
pub offers_edit_lem :
    (ctx : HubContextValue)
    → (offers_add ctx ≡ can ctx edit_resource)
      × (offers_delete ctx ≡ can ctx edit_resource)
      × (offers_edit ctx ≡ false)
unfolding offers_add offers_edit offers_delete lookup
offers_edit_lem ctx = (ground arith, ground arith, refl)
