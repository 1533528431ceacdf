-- ===== src/Palette.antt =====
-- frontend/src/components/layout/CommandPalette.tsx: the commands, the filter and the highlight.
-- `trim`, `toLowerCase` and `includes` are parameters; a command's icon and shortcut are left out.
pub mod Inside
pub mod Leads
mod Tests
use cont_ained.Base.{
  ℕ, ◌+◌, ◌-◌, ◌%◌, String, Bool, true, false, ◌||◌, Option, none, some, List, [], ◌∷◌, ◌++◌, ◌==◌,
  length, filter, get_elem?, ltb, if◌then◌else◌,
}
use cont_ained.Base.Dict.{lookup}
use cont_ained.Permissions.{create_resource, evaluate}
use cont_ained.Routes.{
  HubType, ingestion, agent, workflow, eval, HubRoute, members, links, collections, agents,
  workflows, suites, build,
}
use cont_ained.Store.Hubs.{Hub, HubSliceState}

-- The `category` of a command.
pub data Category : Type 0 where
  in_hub navigation actions : Category

-- What `perform` does: it goes to a path and closes, or closes and opens the switcher of hubs.
pub data Act : Type 0 where
  goes : String → Act
  switches : Act

-- `CommandItem`.
pub record CommandItem : Type 0 where
  pub id : String
  pub category : Category
  pub label : String
  pub description : String
  pub act : Act

abbrev category_name : Category → String
category_name in_hub = "Hub"
category_name navigation = "Navigation"
category_name actions = "Actions"

-- The commands that are always there.
abbrev pub fixed_commands : List CommandItem
fixed_commands =
    record {
      id = "nav-hubs";
      category = navigation;
      label = "Go to Hub Directory";
      description = "Browse and filter all Ingestion, Agent, Workflow, and Eval hubs";
      act = goes "/hubs";
    }
    ∷ record {
      id = "nav-create-hub";
      category = actions;
      label = "Create New Hub";
      description = "Wizard to initialize a new hub workspace";
      act = goes "/hubs/new";
    }
    ∷ record {
      id = "action-switch-hub";
      category = actions;
      label = "Switch Active Hub...";
      description = "Fuzzy search and jump to any hub workspace";
      act = switches;
    }
    ∷ record {
      id = "nav-system";
      category = navigation;
      label = "Go to System Metrics";
      description = "View real-time telemetry, RAM, VRAM, and microservice status";
      act = goes "/system";
    }
    ∷ record {
      id = "nav-playground";
      category = navigation;
      label = "Go to Model Playground";
      description = "Interactive LLM prompt arena & test environment";
      act = goes "/playground";
    }
    ∷ record {
      id = "nav-mcp";
      category = navigation;
      label = "Go to MCP Registry";
      description = "Model Context Protocol tools and servers";
      act = goes "/mcp";
    }
    ∷ record {
      id = "nav-settings";
      category = navigation;
      label = "Go to Settings";
      description = "Configure system gateway, API keys, and preferences";
      act = goes "/settings";
    }
    ∷ []

-- A command of the active hub.
abbrev hub_command : String → String → String → String → HubRoute → CommandItem
hub_command id label name description route = record {
  id = id;
  category = in_hub;
  label = Prim.Native.String.◌++◌ label name;
  description = description;
  act = goes (build route);
}

-- What is put before the others for a type of hub.
unfoldable pub new_command : HubType → String → String → CommandItem
new_command ingestion id name =
    hub_command "hub-new-collection" "New Collection in " name
      "Create vector collection binding in active hub" (collections id)
new_command agent id name =
    hub_command "hub-new-agent" "New Agent in " name "Create agent definition in active hub"
      (agents id)
new_command workflow id name =
    hub_command "hub-new-workflow" "New Workflow in " name
      "Author new multi-workflow graph in active hub" (workflows id)
new_command eval id name =
    hub_command "hub-new-suite" "New Suite in " name "Create evaluation test suite in active hub"
      (suites id)

-- `canCreate`: `evaluate` without its last argument, which then is false.
unfoldable pub can_create : Hub → Bool
can_create h = (evaluate (some h.my_role) create_resource h.is_archived false).allowed

-- The commands that end the list.
abbrev pub hub_commands : Hub → List CommandItem
hub_commands h =
    hub_command "hub-members" "Manage Members of " h.name "View and edit member roles in active hub"
      (members h.hub_type h.id)
    ∷ hub_command "hub-links" "Manage Links for " h.name "Configure hub-to-hub access grants"
        (links h.hub_type h.id)
    ∷ []

-- `commands`.
unfoldable pub commands : Option Hub → List CommandItem
commands none = fixed_commands
commands (some h) =
    (if can_create h then new_command h.hub_type h.id h.name ∷ fixed_commands else fixed_commands)
    ++ hub_commands h

-- `activeHub`; an empty id counts as none.
unfoldable pub active_hub : HubSliceState → Option Hub
active_hub s = elim s.active_hub_id [
  | none ↦ none
  | some id ↦ if id == "" then none else lookup id s.hubs_by_id
]

-- What the palette takes from JavaScript.
pub record Texts : Type 0 where
  pub trim : String → String
  pub to_lower_case : String → String
  pub includes : String → String → Bool

-- `filteredCommands`.
abbrev matches : Texts → String → CommandItem → Bool
matches t q c =
    t.includes (t.to_lower_case c.label) q
    || (t.includes (t.to_lower_case c.description) q
        || t.includes (t.to_lower_case (category_name c.category)) q)

unfoldable pub filtered_commands : Texts → String → List CommandItem → List CommandItem
filtered_commands t query list =
    if t.trim query == "" then list else filter (matches t (t.to_lower_case query)) list

-- What the palette keeps, with the paths it went to and whether the switcher was opened.
pub record PaletteState : Type 0 where
  pub is_open : Bool
  pub query : String
  pub selected_index : ℕ
  pub visited : Option String
  pub switcher : Bool

-- `perform`.
unfoldable pub perform : Act → PaletteState → PaletteState
perform (goes path) p = record p { is_open = false; visited = some path }
perform switches p = record p { is_open = false; switcher = true }

unfoldable pub perform_at : ℕ → List CommandItem → PaletteState → PaletteState
unfolding perform
perform_at i shown p = elim (get_elem? shown i) [ none ↦ p | some c ↦ perform c.act p ]

-- A key, or what the mouse does to a command that is shown.
pub data PaletteEvent : Type 0 where
  opens arrow_down arrow_up enter escape : PaletteEvent
  types : String → PaletteEvent
  hovers clicks : ℕ → PaletteEvent

-- `handleKeyDown` and the other handlers of the open palette, with the effect that resets the index
-- as the query changes.
unfoldable pub handle_event : List CommandItem → PaletteEvent → PaletteState → PaletteState
unfolding perform_at
handle_event shown opens p = p
handle_event shown (types v) p =
    if v == p.query then p else record p { query = v; selected_index = 0 }
handle_event shown arrow_down p =
    let n : ℕ = length shown in
    record p { selected_index = if ltb 0 n then (p.selected_index + 1) % n else 0 }
handle_event shown arrow_up p =
    let n : ℕ = length shown in
    record p { selected_index = if ltb 0 n then (p.selected_index + n - 1) % n else 0 }
handle_event shown enter p = perform_at p.selected_index shown p
handle_event shown escape p = record p { is_open = false }
handle_event shown (hovers i) p =
    if ltb i (length shown) then record p { selected_index = i } else p
handle_event shown (clicks i) p = perform_at i shown p

-- The effect that resets the palette as it opens.
unfoldable pub open_palette : PaletteState → PaletteState
open_palette p =
    if p.is_open then p else record p { is_open = true; query = ""; selected_index = 0 }

unfoldable pub palette_step : Texts → List CommandItem → PaletteEvent → PaletteState → PaletteState
unfolding filtered_commands handle_event open_palette
palette_step t list opens p = open_palette p
palette_step t list e p =
    if p.is_open then handle_event (filtered_commands t p.query list) e p else p
