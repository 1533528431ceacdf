-- ===== src/Permissions/Laws.antt =====
-- The capability matrix of frontend/src/hooks/useHubPermissions.ts.
use cont_ained.Base.{◌≤◌, ◌≡◌, ◌↔◌, ◌⊎◌, inl, refl, Bool, true, false, Option, none, some, arith}
use cont_ained.Permissions.{
  HubRole, owner, maintainer, contributor, viewer, HubAction, view, run_readonly, create_resource,
  edit_resource, execute, delete_resource, manage_datastores, manage_members, manage_links,
  rename_hub, archive_hub, transfer_ownership, hard_delete_hub, role, archived, role_ladder,
  action_min_role, mutating_actions, evaluate, HubContextValue, can, deny_reason, gated, children,
  disabled_children, banner, archived_banner,
}

-- The matrix row by row: what each role adds to the role below it.
pub data Grants : HubRole → HubAction → Type 0 where
  may_view : Grants viewer view
  may_run_readonly : Grants viewer run_readonly
  may_create : Grants contributor create_resource
  may_edit : Grants contributor edit_resource
  may_execute : Grants contributor execute
  may_delete : Grants contributor delete_resource
  may_manage_datastores : Grants contributor manage_datastores
  may_manage_members : Grants maintainer manage_members
  may_manage_links : Grants maintainer manage_links
  may_rename : Grants maintainer rename_hub
  may_archive : Grants maintainer archive_hub
  may_transfer : Grants owner transfer_ownership
  may_hard_delete : Grants owner hard_delete_hub
  as_viewer : {a : HubAction} → Grants viewer a → Grants contributor a
  as_contributor : {a : HubAction} → Grants contributor a → Grants maintainer a
  as_maintainer : {a : HubAction} → Grants maintainer a → Grants owner a

ruleset grants = (
  may_view, may_run_readonly, may_create, may_edit, may_execute, may_delete, may_manage_datastores,
  may_manage_members, may_manage_links, may_rename, may_archive, may_transfer, may_hard_delete,
  as_viewer, as_contributor, as_maintainer,
)

-- Whose rights count: a platform admin has the owner's, whatever the membership.
pub data Holder : Option HubRole → Bool → HubRole → Type 0 where
  as_admin : {r : Option HubRole} → Holder r true owner
  as_member : {r : HubRole} → Holder (some r) false r

-- The two actions that an archived hub leaves open.
abbrev pub IsReadonly : HubAction → Type 0
IsReadonly a = (a ≡ view) ⊎ (a ≡ run_readonly)

Grants-ladder :
    {r : HubRole} {a : HubAction} → Grants r a → role_ladder (action_min_role a) ≤ role_ladder r
unfolding role_ladder action_min_role
Grants-ladder (as_viewer g) = omega (arith, Grants-ladder g)
Grants-ladder (as_contributor g) = omega (arith, Grants-ladder g)
Grants-ladder (as_maintainer g) = omega (arith, Grants-ladder g)
Grants-ladder _ = omega arith

ladder-Grants :
    (r : HubRole) (a : HubAction) → role_ladder (action_min_role a) ≤ role_ladder r → Grants r a
unfolding role_ladder action_min_role
ladder-Grants owner view h = search grants
ladder-Grants maintainer view h = search grants
ladder-Grants contributor view h = search grants
ladder-Grants viewer view h = search grants
ladder-Grants r a h = first_of (search grants, grind arith)

IsReadonly-or_mutating : (a : HubAction) → IsReadonly a ⊎ (mutating_actions a ≡ true)
unfolding mutating_actions
IsReadonly-or_mutating view = inl (inl refl)
IsReadonly-or_mutating _ = ground arith

not-mutating : (a : HubAction) → IsReadonly a → mutating_actions a ≡ false
unfolding mutating_actions
not-mutating a h = ground arith

-- A higher role is never refused what a lower one is allowed.
pub evaluate_mono :
    (r s : HubRole) (a : HubAction) (is_archived : Bool)
    → role_ladder r ≤ role_ladder s
    → (evaluate (some r) a is_archived false).allowed ≡ true
    → (evaluate (some s) a is_archived false).allowed ≡ true
unfolding evaluate
evaluate_mono r s a is_archived h k = ground arith

-- The three tests of `evaluate` on a role that is there.
evaluate-tests :
    (h : HubRole) (a : HubAction) (is_archived : Bool)
    → ((evaluate (some h) a is_archived false).allowed ≡ true) ↔ (
        (role_ladder (action_min_role a) ≤ role_ladder h)
        × ((is_archived ≡ false) ⊎ (mutating_actions a ≡ false)))
unfolding evaluate
evaluate-tests h a is_archived = ground arith

allowed-Grants :
    (h : HubRole) (a : HubAction) (is_archived : Bool)
    → (evaluate (some h) a is_archived false).allowed ≡ true
    → Grants h a × ((is_archived ≡ false) ⊎ IsReadonly a)
allowed-Grants h a is_archived e =
    let (high, open_) = (evaluate-tests h a is_archived).0 e in
    (ladder-Grants h a high, ground (arith, IsReadonly-or_mutating a))

Grants-allowed :
    (h : HubRole) (a : HubAction) (is_archived : Bool)
    → Grants h a
    → (is_archived ≡ false) ⊎ IsReadonly a
    → (evaluate (some h) a is_archived false).allowed ≡ true
Grants-allowed h a is_archived g o =
    (evaluate-tests h a is_archived).1 (Grants-ladder g, ground (arith, not-mutating a))

evaluate-admin :
    (r : Option HubRole) (a : HubAction) (is_archived : Bool)
    → evaluate r a is_archived true ≡ evaluate (some owner) a is_archived false
unfolding evaluate
evaluate-admin r a is_archived = refl

-- The role that counts, its right in the matrix, and the hub open to the action.
abbrev pub Permits : Option HubRole → HubAction → Bool → Bool → Type 0
Permits r a is_archived is_platform_admin =
    (h : HubRole) × Holder r is_platform_admin h
    × Grants h a
    × ((is_archived ≡ false) ⊎ IsReadonly a)

allowed-Permits :
    (r : Option HubRole) (a : HubAction) (is_archived adm : Bool)
    → (evaluate r a is_archived adm).allowed ≡ true
    → Permits r a is_archived adm
allowed-Permits r a is_archived true e =
    let (g, o) = allowed-Grants owner a is_archived (rw (← evaluate-admin r a is_archived) e) in
    (owner, as_admin, g, o)
allowed-Permits none a is_archived false e = unfold evaluate in cc
allowed-Permits (some h) a is_archived false e =
    let (g, o) = allowed-Grants h a is_archived e in (h, as_member, g, o)

Permits-allowed :
    {r : Option HubRole} {adm : Bool} {h : HubRole} (a : HubAction) (is_archived : Bool)
    → Holder r adm h
    → Grants h a
    → (is_archived ≡ false) ⊎ IsReadonly a
    → (evaluate r a is_archived adm).allowed ≡ true
Permits-allowed a is_archived (as_admin {r}) g o =
    rw (evaluate-admin r a is_archived) (Grants-allowed owner a is_archived g o)
Permits-allowed a is_archived (as_member {r}) g o = Grants-allowed r a is_archived g o

-- `evaluate` allows an action exactly when the role that counts (the owner's for a platform admin)
-- is granted it by the matrix, and the hub is not archived or the action is read-only.
pub evaluate-allowed_iff :
    (r : Option HubRole) (a : HubAction) (is_archived is_platform_admin : Bool)
    → ((evaluate r a is_archived is_platform_admin).allowed ≡ true)
      ↔ Permits r a is_archived is_platform_admin
evaluate-allowed_iff r a is_archived is_platform_admin = (
  allowed-Permits r a is_archived is_platform_admin,
  λ (h, holder, g, o). Permits-allowed a is_archived holder g o,
)

-- The reason given with a verdict: none when the action is allowed, the archive when only that
-- stands in the way, the role otherwise.
pub evaluate-reason :
    (r : Option HubRole) (a : HubAction) (is_archived adm : Bool)
    → (((evaluate r a is_archived adm).reason ≡ none)
        ↔ ((evaluate r a is_archived adm).allowed ≡ true))
      × (((evaluate r a is_archived adm).reason ≡ some archived) ↔ (
          ((evaluate r a is_archived adm).allowed ≡ false)
          × ((evaluate r a false adm).allowed ≡ true)))
      × (((evaluate r a is_archived adm).reason ≡ some role)
          ↔ ((evaluate r a false adm).allowed ≡ false))
unfolding evaluate
evaluate-reason r a is_archived adm = ground arith

-- The banner of an archived hub never shows its "Unarchive Hub" button, to no role and to no
-- platform admin: `archive_hub` is itself among the actions that the archive forbids.
pub archived_banner_locked :
    (ctx : HubContextValue) → ctx.is_archived ≡ true → archived_banner ctx ≡ banner false
unfolding archived_banner
archived_banner_locked ctx h = ground arith

-- `Gated` shows live children exactly when the action is allowed; a disabled wrapper stands in for
-- them exactly when it is asked for and only the archive forbids the action.
pub gated-cases :
    (ctx : HubContextValue) (a : HubAction) (show : Bool)
    → ((gated ctx a show ≡ children) ↔ (can ctx a ≡ true))
      × ((gated ctx a show ≡ disabled_children)
          ↔ ((show ≡ true) × (deny_reason ctx a ≡ some archived)))
unfolding gated
gated-cases ctx a show = ground arith
