-- ===== src/Directory/Tests.antt =====
-- The directory on two types and an address.
use cont_ained.Base.{true, [], ◌∷◌, ◌==◌, ◌≡◌, refl, arith, if◌then◌else◌}
use cont_ained.Routes.{agent, type_name}
use cont_ained.Directory.{Host, Directory, toggle_type_filter, initial_directory, search_params}
use cont_ained.Directory.Filters.{IsFilter, toggle_type_filter-IsFilter}
use cont_ained.Directory.Address.{initial_directory-search_params}

-- A host that knows the list of two types.
abbrev plain_host : Host
plain_host = record {
  trim = λ s. s;
  to_lower_case = λ s. s;
  includes = λ s q. s == q;
  join_comma = λ types. "agent,eval";
  split_comma = λ s. if s == "agent,eval" then "agent" ∷ "eval" ∷ [] else s ∷ [];
  by_name = λ a b. true;
  time = λ s. 0;
  sort = λ before hubs. hubs;
}

abbrev two_types : Directory
two_types = record {
  search_query = "docs";
  selected_types = "agent" ∷ "eval" ∷ [];
  show_archived = true;
  sort_by = "name";
}

toggle_type_filter-IsFilter_test : IsFilter (toggle_type_filter agent two_types)
toggle_type_filter-IsFilter_test = toggle_type_filter-IsFilter agent two_types (omega arith, refl)

toggle_test : (toggle_type_filter agent two_types).selected_types ≡ "eval" ∷ []
unfolding toggle_type_filter type_name
toggle_test = refl

initial_directory-search_params_example :
    initial_directory plain_host (search_params plain_host two_types) ≡ two_types
initial_directory-search_params_example =
    initial_directory-search_params plain_host two_types refl refl refl refl refl
