-- ===== src/Palette/Tests.antt =====
-- The palette on a hub and a few keys.
use cont_ained.Base.{true, false, none, some, ◌==◌, ◌≡◌, inl, refl, any, All, arith, ne_of_eq-false}
use cont_ained.Permissions.{viewer, create_resource, can}
use cont_ained.Routes.{agent}
use cont_ained.Routes.RoundTrip.{IsSegment}
use cont_ained.Store.Hubs.{Hub}
use cont_ained.Palette.{
  Texts, PaletteState, arrow_up, palette_step, commands, new_command, fixed_commands,
}
use cont_ained.Palette.Inside.{IsInside, palette_step-IsInside}
use cont_ained.Palette.Leads.{Leads, commands-Leads, commands-can}

abbrev bots : Hub
bots = record {
  id = "h1";
  slug = "bots";
  name = "Bots";
  hub_type = agent;
  description = none;
  accent = none;
  icon = none;
  owner_id = "u1";
  is_archived = false;
  my_role = viewer;
  resource_count = none;
  resource_counts = none;
  member_count = 1;
  last_activity_at = none;
  created_at = "";
  updated_at = "";
}

bots-IsSegment : IsSegment bots.id
bots-IsSegment = record { filled = ne_of_eq-false "h1" "" refl; whole = ground arith }

commands-Leads_example : All (Leads agent "h1") (commands (some bots))
commands-Leads_example = commands-Leads bots bots-IsSegment

commands-can_test :
    any (λ c. c.id == (new_command agent "h1" "Bots").id) (commands (some bots))
    ≡ can
        (record { hub_role = some viewer; is_platform_admin = false; is_archived = false })
        create_resource
commands-can_test = commands-can bots

abbrev plain_texts : Texts
plain_texts = record { trim = λ s. s; to_lower_case = λ s. s; includes = λ s q. s == q }

abbrev opened : PaletteState
opened = record { is_open = true; query = ""; selected_index = 0; visited = none; switcher = false }

palette_step-IsInside_test :
    IsInside plain_texts fixed_commands (palette_step plain_texts fixed_commands arrow_up opened)
palette_step-IsInside_test =
    palette_step-IsInside plain_texts fixed_commands arrow_up opened (inl refl)
