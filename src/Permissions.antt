-- ===== src/Permissions.antt =====
-- frontend/src/hooks/useHubPermissions.ts and frontend/src/components/hubs/HubContext.tsx: the
-- capability matrix of a hub, and Gated.tsx, which renders by it.
pub mod Laws
mod Tests
use cont_ained.Base.{ℕ, Bool, true, false, ◌&&◌, Option, none, some, leb, if◌then◌else◌}

-- `HubRole`.
pub data HubRole : Type 0 where
  owner maintainer contributor viewer : HubRole

-- `HubAction`.
pub data HubAction : Type 0 where
  view run_readonly create_resource edit_resource execute delete_resource : HubAction
  manage_datastores manage_members manage_links rename_hub archive_hub : HubAction
  transfer_ownership hard_delete_hub : HubAction

-- `"role" | "archived"`.
pub data DenyReason : Type 0 where
  role archived : DenyReason

-- The result of `evaluate`.
pub record Verdict : Type 0 where
  pub allowed : Bool
  pub reason : Option DenyReason

-- `ROLE_LADDER`.
unfoldable pub role_ladder : HubRole → ℕ
role_ladder owner = 4
role_ladder maintainer = 3
role_ladder contributor = 2
role_ladder viewer = 1

-- `MUTATING_ACTIONS.has(action)`.
unfoldable pub mutating_actions : HubAction → Bool
mutating_actions view = false
mutating_actions run_readonly = false
mutating_actions _ = true

-- `ACTION_MIN_ROLE`.
unfoldable pub action_min_role : HubAction → HubRole
action_min_role view = viewer
action_min_role run_readonly = viewer
action_min_role create_resource = contributor
action_min_role edit_resource = contributor
action_min_role execute = contributor
action_min_role delete_resource = contributor
action_min_role manage_datastores = contributor
action_min_role manage_members = maintainer
action_min_role manage_links = maintainer
action_min_role rename_hub = maintainer
action_min_role archive_hub = maintainer
action_min_role transfer_ownership = owner
action_min_role hard_delete_hub = owner

-- `evaluate` once the effective role is known to be there.
abbrev evaluate_role : HubRole → HubAction → Bool → Verdict
evaluate_role effective action is_archived =
    if leb (role_ladder (action_min_role action)) (role_ladder effective)
    then if is_archived && mutating_actions action
      then record { allowed = false; reason = some archived }
      else record { allowed = true; reason = none }
    else record { allowed = false; reason = some role }

-- `evaluate`.
unfoldable pub evaluate : Option HubRole → HubAction → Bool → Bool → Verdict
unfolding role_ladder mutating_actions action_min_role
evaluate hub_role action is_archived is_platform_admin =
    let effective_role : Option HubRole = if is_platform_admin then some owner else hub_role in
    elim effective_role [
      | none ↦ record { allowed = false; reason = some role }
      | some effective ↦ evaluate_role effective action is_archived
    ]

-- What `useHubPermissions` reads of `HubContextValue`.
pub record HubContextValue : Type 0 where
  pub hub_role : Option HubRole
  pub is_platform_admin : Bool
  pub is_archived : Bool

-- `can` and `denyReason` of `useHubPermissions`, and of the context that HubShell.tsx provides.
unfoldable pub can : HubContextValue → HubAction → Bool
unfolding evaluate
can ctx action = (evaluate ctx.hub_role action ctx.is_archived ctx.is_platform_admin).allowed

unfoldable pub deny_reason : HubContextValue → HubAction → Option DenyReason
unfolding evaluate
deny_reason ctx action = (evaluate ctx.hub_role action ctx.is_archived ctx.is_platform_admin).reason

-- What `Gated` renders: the children, the children behind a disabled wrapper, or the fallback.
pub data Rendering : Type 0 where
  children disabled_children fallback : Rendering

abbrev is_archived_reason : Option DenyReason → Bool
is_archived_reason none = false
is_archived_reason (some role) = false
is_archived_reason (some archived) = true

-- `Gated`.
unfoldable pub gated : HubContextValue → HubAction → Bool → Rendering
unfolding can deny_reason
gated ctx action show_disabled_when_archived =
    if can ctx action
    then children
    else if is_archived_reason (deny_reason ctx action) && show_disabled_when_archived
    then disabled_children
    else fallback

-- The archived banner of HubShell.tsx, with its "Unarchive Hub" button or without it.
pub data Banner : Type 0 where
  no_banner : Banner
  banner : Bool → Banner

-- `hub?.is_archived && ...`: the button stands under `can("archive_hub")`.
unfoldable pub archived_banner : HubContextValue → Banner
unfolding can
archived_banner ctx = if ctx.is_archived then banner (can ctx archive_hub) else no_banner
