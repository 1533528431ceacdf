-- ===== src/Wizard/Slug.antt =====
-- The slug that HubCreateWizard.tsx derives from a name, and the test that a slug must pass.
-- `toLowerCase` is a parameter.
use Prim.Native.Char.{Char, code}
use cont_ained.Base.{ℕ, ◌+◌, String, Bool, true, false, ◌&&◌, ◌||◌, leb, eqb, if◌then◌else◌}

-- `[a-z0-9]`.
unfoldable pub is_word : Char → Bool
is_word c = (leb b'a' (code c) && leb (code c) b'z') || (leb b'0' (code c) && leb (code c) b'9')

unfoldable pub is_dash : Char → Bool
is_dash c = eqb (code c) b'-'

-- `s.replace(/[^a-z0-9]+/g, "-")`; the flag says that the character before is one of a run that is
-- already replaced.
unfoldable pub dash_runs : Bool → String → String
dash_runs in_run String.[] = ""
dash_runs in_run (String.◌∷◌ c s) = elim (is_word c) [
  | true ↦ String.◌∷◌ c (dash_runs false s)
  | false ↦ elim in_run [ true ↦ dash_runs true s | false ↦ String.◌∷◌ "-" (dash_runs true s) ]
]

-- `/^-/` and `/-$/`, each replaced by nothing.
unfoldable pub strip_first : String → String
strip_first String.[] = ""
strip_first (String.◌∷◌ c s) = if is_dash c then s else String.◌∷◌ c s

unfoldable pub strip_last : String → String
strip_last String.[] = ""
strip_last (String.◌∷◌ c String.[]) = if is_dash c then "" else String.◌∷◌ c ""
strip_last (String.◌∷◌ c (String.◌∷◌ d s)) = String.◌∷◌ c (strip_last (String.◌∷◌ d s))

-- The slug of a name.
unfoldable pub derived_slug : (String → String) → String → String
derived_slug to_lower_case name = strip_last (strip_first (dash_runs false (to_lower_case name)))

-- `s.length`; what the test lets through has one unit to a character.
unfoldable pub slug_length : String → ℕ
slug_length String.[] = 0
slug_length (String.◌∷◌ c s) = 1 + slug_length s

-- `[a-z0-9-]*`.
unfoldable pub all_slug : String → Bool
all_slug String.[] = true
all_slug (String.◌∷◌ c s) = (is_word c || is_dash c) && all_slug s

-- `/^[a-z0-9][a-z0-9-]{1,63}$/.test(slug)`.
unfoldable pub is_valid_slug : String → Bool
is_valid_slug String.[] = false
is_valid_slug (String.◌∷◌ c s) =
    is_word c && (all_slug s && (leb 1 (slug_length s) && leb (slug_length s) 63))
