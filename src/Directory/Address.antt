-- ===== src/Directory/Address.antt =====
-- The address of the page of HubDirectory.tsx, read back.
use cont_ained.Base.{
  or_text, String, Bool, true, false, ◌&&◌, not, List, [], ◌∷◌, ◌++◌, ◌==◌, ◌≡◌, refl, sym, ◌∙◌,
  arith, length, ltb, Bool-cases, inl, inr, eq_iff, eq_comm, if◌then◌else◌,
}
use mathlib.Core.List.{append_assoc, append-nil}
use cont_ained.Base.Dict.{Dict, lookup}
use cont_ained.Directory.{
  Host, Directory, param, entry, has_text, set_of, initial_directory, search_params, all_types,
}
use cont_ained.Directory.Filters.{distinct, has_text-append}

-- No item of the list is in the set.
apart : List String → List String → Bool
apart [] set = true
apart (t ∷ list) set = not (has_text t set) && apart list set

apart-append :
    (t : String) (list set : List String)
    → has_text t list ≡ false
    → apart list set ≡ true
    → apart list (set ++ t ∷ []) ≡ true
unfolding apart
apart-append t [] set h a = refl
apart-append t (k ∷ list) set h a =
    ground (arith, has_text-append k t set, apart-append t list set, eq_comm k t, h, a)

set_of-distinct :
    (list set : List String)
    → distinct list ≡ true
    → apart list set ≡ true
    → set_of list set ≡ set ++ list
unfolding set_of apart
set_of-distinct [] set d a = sym (append-nil set)
set_of-distinct (t ∷ list) set d a = rw absent (
    set_of-distinct list (set ++ t ∷ []) (ground (arith, d))
      (apart-append t list set (ground (arith, d)) (ground (arith, a)))
    ∙ append_assoc set (t ∷ []) list)
  where
    absent : has_text t set ≡ false
    absent = ground (arith, a)

apart-nil : (list : List String) → apart list [] ≡ true
unfolding apart
apart-nil [] = refl
apart-nil (t ∷ list) = apart-nil list

param-entry :
    (b : Bool) (k j v : String) (rest : Dict String)
    → param k (entry b j v rest) ≡ (if b && (j == k) then v else param k rest)
unfolding param entry lookup
param-entry true k j v rest = ground arith
param-entry false k j v rest = refl

param-nil : (k : String) → param k [] ≡ ""
unfolding param lookup
param-nil k = refl

module _ (b₁ b₂ b₃ b₄ : Bool) (v₁ v₂ v₃ v₄ : String) where
  -- An address with up to four names.
  abbrev address : Dict String
  address = entry b₁ "q" v₁ (entry b₂ "type" v₂ (entry b₃ "archived" v₃ (entry b₄ "sort" v₄ [])))

  address-params :
      ((param "q" address ≡ (if b₁ then v₁ else ""))
        × (param "type" address ≡ (if b₂ then v₂ else "")))
      × ((param "archived" address ≡ (if b₃ then v₃ else ""))
          × (param "sort" address ≡ (if b₄ then v₄ else "")))
  unfolding param entry lookup
  address-params = ground arith

-- What the page makes of its own types and of its own order.
types_again :
    (host : Host) (types : List String)
    → ltb (length types) 4 ≡ true
    → distinct types ≡ true
    → (host.join_comma types == "") ≡ false
    → host.split_comma (host.join_comma types) ≡ types
    → (if (if ltb (length types) 4 then host.join_comma types else "") == ""
        then all_types
        else set_of
            (host.split_comma (if ltb (length types) 4 then host.join_comma types else ""))
            [])
      ≡ types
types_again host types few single filled back =
    rw (few, filled, back) (set_of-distinct types [] single (apart-nil types))

order_again :
    (order : String)
    → (order == "") ≡ false
    → or_text (if not (order == "activity") then order else "") "activity" ≡ order
order_again order h = elim (Bool-cases (order == "activity")) [
  | inl same ↦ rw same (sym ((eq_iff order "activity").0 same))
  | inr other ↦ rw (other, h) refl
]

archived_again : (b : Bool) → ((if b then "true" else "") == "true") ≡ b
archived_again true = refl
archived_again false = refl

-- If the order is not empty, the types are fewer than four, none twice, the text that `join(",")`
-- makes of them is not empty, and `split(",")` undoes it, then the address that the page writes starts the page anew with the same
-- types, the same order, the archived hubs shown or not as before, and the search without the blanks
-- around it.
pub initial_directory-search_params :
    (host : Host) (d : Directory)
    → (d.sort_by == "") ≡ false
    → ltb (length d.selected_types) 4 ≡ true
    → distinct d.selected_types ≡ true
    → (host.join_comma d.selected_types == "") ≡ false
    → host.split_comma (host.join_comma d.selected_types) ≡ d.selected_types
    → initial_directory host (search_params host d)
      ≡ record d { search_query = host.trim d.search_query }
unfolding initial_directory search_params
initial_directory-search_params host d order few single filled back =
    rw (said.0.0, said.0.1, said.1.0, said.1.1)
      (λ i. record {
        search_query = query i;
        selected_types = types_again host d.selected_types few single filled back i;
        show_archived = archived_again d.show_archived i;
        sort_by = order_again d.sort_by order i;
      })
  where
    query :
        (if not (host.trim d.search_query == "") then host.trim d.search_query else "")
        ≡ host.trim d.search_query
    query = ground (arith, eq_iff (host.trim d.search_query) "")

    said :
        ((param "q" (search_params host d)
            ≡ (if not (host.trim d.search_query == "") then host.trim d.search_query else ""))
          × (param "type" (search_params host d)
              ≡ (if ltb (length d.selected_types) 4 then host.join_comma d.selected_types else "")))
        × ((param "archived" (search_params host d) ≡ (if d.show_archived then "true" else ""))
            × (param "sort" (search_params host d)
                ≡ (if not (d.sort_by == "activity") then d.sort_by else "")))
    said =
        address-params (not (host.trim d.search_query == "")) (ltb (length d.selected_types) 4)
          d.show_archived (not (d.sort_by == "activity")) (host.trim d.search_query)
          (host.join_comma d.selected_types) "true" d.sort_by
