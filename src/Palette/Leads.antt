-- ===== src/Palette/Leads.antt =====
-- The commands of CommandPalette.tsx for the active hub.
use cont_ained.Base.{
  Bool, true, false, some, ◌∷◌, ◌==◌, ◌≡◌, refl, any, All, All-append, ◌++◌, if◌then◌else◌, String,
}
use cont_ained.Permissions.{create_resource, can}
use cont_ained.Routes.{
  HubType, ingestion, agent, workflow, eval, ParsedHubRoute, parse_hub_route, HubRoute, members,
  links, collections, agents, workflows, suites, build,
}
use cont_ained.Routes.RoundTrip.{IsSegment}
use cont_ained.Routes.Builders.{parse_hub_route-build, HasSegments, destination}
use cont_ained.Store.Hubs.{Hub}
use cont_ained.Palette.{
  CommandItem, in_hub, goes, commands, new_command, can_create, fixed_commands, hub_commands,
}

-- A command goes to a path that is read as one of the hub.
pub record LeadsInto (t : HubType) (id : String) (c : CommandItem) : Type 0 where
  pub path : String
  pub route : ParsedHubRoute
  pub goes_there : c.act ≡ goes path
  pub reads : parse_hub_route path ≡ some route
  pub same_type : route.hub_type ≡ t
  pub same_hub : route.hub_id ≡ id

-- Commands of other categories are left open.
abbrev pub Leads : HubType → String → CommandItem → Type 0
Leads t id c = elim c.category [ in_hub ↦ LeadsInto t id c | _ ↦ Unit {0} ]

route-LeadsInto :
    (r : HubRoute) (c : CommandItem)
    → HasSegments r
    → c.act ≡ goes (build r)
    → LeadsInto (destination r).hub_type (destination r).hub_id c
route-LeadsInto r c s e = record {
  path = build r;
  route = destination r;
  goes_there = e;
  reads = parse_hub_route-build r s;
  same_type = refl;
  same_hub = refl;
}

new_command-Leads :
    (t : HubType) (id name : String) → IsSegment id → Leads t id (new_command t id name)
unfolding new_command
new_command-Leads ingestion id name s = route-LeadsInto (collections id) _ s refl
new_command-Leads agent id name s = route-LeadsInto (agents id) _ s refl
new_command-Leads workflow id name s = route-LeadsInto (workflows id) _ s refl
new_command-Leads eval id name s = route-LeadsInto (suites id) _ s refl

-- If the id of the active hub is not empty and has no slash, every command of the category `Hub`
-- leads to a path that `parseHubRoute` reads as one of that hub, with its type and its id.
pub commands-Leads : (h : Hub) → IsSegment h.id → All (Leads h.hub_type h.id) (commands (some h))
unfolding commands
commands-Leads h s = All-append (Leads h.hub_type h.id) _ (hub_commands h) (first (can_create h)) (
  route-LeadsInto (members h.hub_type h.id) _ s refl,
  (route-LeadsInto (links h.hub_type h.id) _ s refl, tt),
)
  where
    first :
        (b : Bool)
        → All
            (Leads h.hub_type h.id)
            (if b then new_command h.hub_type h.id h.name ∷ fixed_commands else fixed_commands)
    first true =
        (new_command-Leads h.hub_type h.id h.name s, (tt, (tt, (tt, (tt, (tt, (tt, (tt, tt))))))))
    first false = (tt, (tt, (tt, (tt, (tt, (tt, (tt, tt)))))))

-- The command that creates something in the active hub is listed exactly if the permissions of the
-- hub allow the user to create a resource there, for a user who is no platform admin.
pub commands-can :
    (h : Hub)
    → any (λ c. c.id == (new_command h.hub_type h.id h.name).id) (commands (some h))
      ≡ can
          (record {
            hub_role = some h.my_role;
            is_platform_admin = false;
            is_archived = h.is_archived;
          })
          create_resource
unfolding commands can can_create new_command
commands-can h = listed h.hub_type (can_create h)
  where
    listed :
        (t : HubType) (b : Bool)
        → any
            (λ c. c.id == (new_command t h.id h.name).id)
            ((if b then new_command t h.id h.name ∷ fixed_commands else fixed_commands)
              ++ hub_commands h)
          ≡ b
    listed ingestion true = refl
    listed ingestion false = refl
    listed agent true = refl
    listed agent false = refl
    listed workflow true = refl
    listed workflow false = refl
    listed eval true = refl
    listed eval false = refl
