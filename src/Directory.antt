-- ===== src/Directory.antt =====
-- frontend/src/components/hubs/HubDirectory.tsx: which hubs are listed. `trim`, `toLowerCase`,
-- `includes`, `join`, `split`, the comparisons of names and times, and `sort` are parameters.
pub mod Filters
pub mod Address
mod Tests
use cont_ained.Base.{
  ℕ, ◌+◌, String, Bool, true, false, ◌&&◌, ◌||◌, not, Option, none, some, List, [], ◌∷◌, ◌++◌, ◌==◌,
  any, filter, length, ltb, or_text, if◌then◌else◌,
}
use cont_ained.Base.Dict.{Dict, lookup}
use cont_ained.Routes.{HubType, ingestion, agent, workflow, eval, type_name}
use cont_ained.Store.Hubs.{Hub, HubSliceState}

-- What the page takes from JavaScript; `sort` gets the test that an item may stand before another.
pub record Host : Type 0 where
  pub trim : String → String
  pub to_lower_case : String → String
  pub includes : String → String → Bool
  pub join_comma : List String → String
  pub split_comma : String → List String
  pub by_name : String → String → Bool
  pub time : String → ℕ
  pub sort : (Hub → Hub → Bool) → List Hub → List Hub

-- What the page keeps; a type is its name, since the address of the page may give another text, and
-- so is the order.
pub record Directory : Type 0 where
  pub search_query : String
  pub selected_types : List String
  pub show_archived : Bool
  pub sort_by : String

abbrev pub all_types : List String
all_types = "ingestion" ∷ "agent" ∷ "workflow" ∷ "eval" ∷ []

abbrev pub has_text : String → List String → Bool
has_text t types = any (λ k. k == t) types

-- `new Set(list)`.
unfoldable pub set_of : List String → List String → List String
set_of [] set = set
set_of (t ∷ list) set = set_of list (if has_text t set then set else set ++ t ∷ [])

-- `searchParams.get(k) || ""`.
unfoldable pub param : String → Dict String → String
param k params = elim (lookup k params) [ none ↦ "" | some v ↦ v ]

-- The state that the page starts from.
unfoldable pub initial_directory : Host → Dict String → Directory
unfolding param
initial_directory host params = record {
  search_query = param "q" params;
  selected_types =
      if param "type" params == ""
      then all_types
      else set_of (host.split_comma (param "type" params)) [];
  show_archived = param "archived" params == "true";
  sort_by = or_text (param "sort" params) "activity";
}

-- `if (b) params[k] = v`.
unfoldable pub entry : Bool → String → String → Dict String → Dict String
entry true k v rest = (k, v) ∷ rest
entry false k v rest = rest

-- The effect that writes the address.
unfoldable pub search_params : Host → Directory → Dict String
unfolding entry
search_params host d = entry (not (host.trim d.search_query == "")) "q" (host.trim d.search_query) (
    entry (ltb (length d.selected_types) 4) "type" (host.join_comma d.selected_types) (
      entry d.show_archived "archived" "true"
        (entry (not (d.sort_by == "activity")) "sort" d.sort_by [])))

-- `toggleTypeFilter`: the last type stays.
unfoldable pub toggle_type_filter : HubType → Directory → Directory
toggle_type_filter t d =
    if has_text (type_name t) d.selected_types
    then if ltb 1 (length d.selected_types)
      then record d { selected_types = filter (λ k. not (k == type_name t)) d.selected_types }
      else d
    else record d { selected_types = d.selected_types ++ type_name t ∷ [] }

-- The search of `processHubList`; a description that is missing or empty does not match.
abbrev pub found : Host → String → Hub → Bool
found host q h =
    host.includes (host.to_lower_case h.name) q
    || (host.includes (host.to_lower_case h.slug) q || elim h.description [
      | none ↦ false
      | some s ↦ not (s == "") && host.includes (host.to_lower_case s) q
    ])

-- The comparison that is passed to `sort`: the first hub may stand before the second.
unfoldable pub before : Host → String → Hub → Hub → Bool
before host sort_by a b =
    if sort_by == "name"
    then host.by_name a.name b.name
    else if sort_by == "created"
    then not (ltb (host.time a.created_at) (host.time b.created_at))
    else not (ltb (activity a) (activity b))
  where
    activity : Hub → ℕ
    activity h = elim h.last_activity_at [ none ↦ 0 | some t ↦ if t == "" then 0 else host.time t ]

-- The list of `processHubList` before it is sorted.
unfoldable pub filtered_hubs : Host → Directory → List Hub → List Hub
filtered_hubs host d hubs =
    let kept : List Hub = if d.show_archived then hubs else filter (λ h. not h.is_archived) hubs in
    if host.trim d.search_query == ""
    then kept
    else filter (found host (host.trim (host.to_lower_case d.search_query))) kept

-- `processHubList`.
unfoldable pub process_hub_list : Host → Directory → List Hub → List Hub
unfolding filtered_hubs before
process_hub_list host d hubs = host.sort (before host d.sort_by) (filtered_hubs host d hubs)

-- `totalArchivedCount`.
unfoldable pub total_archived_count : HubSliceState → ℕ
total_archived_count s =
    count (s.hubs_by_type ingestion)
    + (count (s.hubs_by_type agent)
        + (count (s.hubs_by_type workflow) + count (s.hubs_by_type eval)))
  where
    count : List Hub → ℕ
    count hubs = length (filter (λ h. h.is_archived) hubs)
