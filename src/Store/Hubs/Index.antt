-- ===== src/Store/Hubs/Index.antt =====
-- The two indexes of frontend/src/store/hubSlice.ts, by id and by type, against each other.
use mathlib.Core.List.{append-nil}
use cont_ained.Base.{
  String, Bool, true, false, Option, none, some, List, [], ◌∷◌, ◌++◌, ◌==◌, ◌≡◌, ◌⊎◌, inl, inr,
  refl, ◌∙◌, filter, if◌then◌else◌, arith, eq_iff, eq_refl, All, filter-append, Bool-cases,
}
use cont_ained.Base.Dict.{Dict, lookup, insert, remove, lookup-insert, lookup-remove}
use cont_ained.Routes.{HubType, type_name}
use cont_ained.Routes.RoundTrip.{type_name-injective}
use cont_ained.Store.Hubs.{
  Hub, HubsByType, HubSliceState, set_type, index_hubs, set_hubs, without_hub, upsert_hub,
}

abbrev pub hub_has_id : String → Hub → Bool
hub_has_id id h = h.id == id

-- What the list of a type holds of a hub that the dictionary holds.
abbrev pub entry : HubType → Option Hub → List Hub
entry t none = []
entry t (some h) = if type_name h.hub_type == type_name t then h ∷ [] else []

-- The list of a type holds under an id what the dictionary holds: one hub, or none.
abbrev pub Indexed : Dict Hub → HubsByType → Type 0
Indexed by_id by_type =
    (t : HubType) (id : String) → filter (hub_has_id id) (by_type t) ≡ entry t (lookup id by_id)

abbrev pub IsIndexed : HubSliceState → Type 0
IsIndexed s = Indexed s.hubs_by_id s.hubs_by_type

pub filter-without_hub :
    (id k : String) (hubs : List Hub)
    → filter (hub_has_id id) (without_hub k hubs)
      ≡ (if k == id then [] else filter (hub_has_id id) hubs)
filter-without_hub id k [] = ground arith
filter-without_hub id k (h ∷ hubs) =
    ground (arith, eq_iff h.id k, eq_iff h.id id, eq_iff k id, filter-without_hub id k hubs)

-- A hub at the end of its type's list and in the dictionary, when no other list has its id.
put-Indexed :
    (h : Hub) (list : List Hub) (by_id : Dict Hub) (by_type : HubsByType)
    → ((id : String)
        → filter (hub_has_id id) list
          ≡ (if h.id == id then [] else filter (hub_has_id id) (by_type h.hub_type)))
    → ((t : HubType)
        → (type_name h.hub_type == type_name t) ≡ false
        → filter (hub_has_id h.id) (by_type t) ≡ [])
    → Indexed by_id by_type
    → Indexed (insert h.id h by_id) (set_type h.hub_type (list ++ h ∷ []) by_type)
unfolding set_type
put-Indexed h list by_id by_type own others i t id =
    elim (Bool-cases (type_name h.hub_type == type_name t)) [
      | inl same ↦
          rw (← type_name-injective h.hub_type t ((eq_iff _ _).0 same))
            (put-own (Bool-cases (h.id == id)))
      | inr other ↦
          ground
            (arith, other, lookup-insert h.id id h by_id, eq_iff h.id id, others t other, i t id)
    ]
  where
    put-own :
        (h.id == id ≡ true) ⊎ (h.id == id ≡ false)
        → filter (hub_has_id id) (set_type h.hub_type (list ++ h ∷ []) by_type h.hub_type)
          ≡ entry h.hub_type (lookup id (insert h.id h by_id))
    put-own (inl hit) =
        rw
          (
            eq_refl (type_name h.hub_type),
            filter-append (hub_has_id id) list (h ∷ []),
            lookup-insert h.id id h by_id,
            own id,
            hit,
            eq_refl (type_name h.hub_type),
          )
          refl
    put-own (inr miss) =
        rw
          (
            eq_refl (type_name h.hub_type),
            filter-append (hub_has_id id) list (h ∷ []),
            lookup-insert h.id id h by_id,
            own id,
            miss,
            append-nil,
          )
          (i h.hub_type id)

-- No hub of the list has the id, in the dictionary or under another type.
nothing-Indexed :
    (by_id : Dict Hub) (by_type : HubsByType) (id : String) (t : HubType)
    → Indexed by_id by_type
    → lookup id by_id ≡ none
    → filter (hub_has_id id) (by_type t) ≡ []
nothing-Indexed by_id by_type id t i absent = i t id ∙ rw absent refl

abbrev pub Distinct : List Hub → Type 0
Distinct [] = Unit
Distinct (h ∷ hubs) = All (λ g. (h.id == g.id) ≡ false) hubs × Distinct hubs

still-absent :
    (h : Hub) (hubs : List Hub) (by_id : Dict Hub)
    → All (λ g. (h.id == g.id) ≡ false) hubs
    → All (λ g. lookup g.id by_id ≡ none) hubs
    → All (λ g. lookup g.id (insert h.id h by_id) ≡ none) hubs
still-absent h [] by_id apart absent = tt
still-absent h (g ∷ hubs) by_id (a, apart) (n, absent) =
    (rw (lookup-insert h.id g.id h by_id, a) n, still-absent h hubs by_id apart absent)

index_hubs-Indexed :
    (hubs : List Hub) (by_id : Dict Hub) (by_type : HubsByType)
    → Distinct hubs
    → All (λ h. lookup h.id by_id ≡ none) hubs
    → Indexed by_id by_type
    → Indexed (index_hubs hubs by_id by_type).0 (index_hubs hubs by_id by_type).1
unfolding index_hubs
index_hubs-Indexed [] by_id by_type d absent i = i
index_hubs-Indexed (h ∷ hubs) by_id by_type (apart, d) (n, absent) i =
    index_hubs-Indexed hubs (insert h.id h by_id)
      (set_type h.hub_type (by_type h.hub_type ++ h ∷ []) by_type) d
      (still-absent h hubs by_id apart absent)
      (put-Indexed h (by_type h.hub_type) by_id by_type own
        (λ t o. nothing-Indexed by_id by_type h.id t i n) i)
  where
    own :
        (id : String)
        → filter (hub_has_id id) (by_type h.hub_type)
          ≡ (if h.id == id then [] else filter (hub_has_id id) (by_type h.hub_type))
    own id = ground (arith, eq_iff h.id id, nothing-Indexed by_id by_type h.id h.hub_type i n)

pub set_hubs-IsIndexed :
    (hubs : List Hub) (s : HubSliceState) → Distinct hubs → IsIndexed (set_hubs hubs s)
unfolding set_hubs lookup
set_hubs-IsIndexed hubs s d =
    index_hubs-Indexed hubs [] (λ t. []) d (none_stored hubs) (λ t id. refl)
  where
    none_stored : (gs : List Hub) → All (λ h. lookup {V = Hub} h.id [] ≡ none) gs
    none_stored [] = tt
    none_stored (g ∷ gs) = (refl, none_stored gs)

-- A hub of this id that is stored has this type.
abbrev pub KeepsType : Hub → Dict Hub → Type 0
KeepsType h by_id =
    (lookup h.id by_id ≡ none)
    ⊎ ((old : Hub) × (lookup h.id by_id ≡ some old) × (old.hub_type ≡ h.hub_type))

others_empty :
    (h : Hub) (by_id : Dict Hub) (by_type : HubsByType) (t : HubType)
    → Indexed by_id by_type
    → KeepsType h by_id
    → (type_name h.hub_type == type_name t) ≡ false
    → filter (hub_has_id h.id) (by_type t) ≡ []
others_empty h by_id by_type t i (inl n) o = nothing-Indexed by_id by_type h.id t i n
others_empty h by_id by_type t i (inr (old, l, e)) o = i t h.id ∙ rw (l, e, o) refl

pub upsert_hub-IsIndexed :
    (h : Hub) (s : HubSliceState)
    → KeepsType h s.hubs_by_id
    → IsIndexed s
    → IsIndexed (upsert_hub h s)
unfolding upsert_hub
upsert_hub-IsIndexed h s k i =
    put-Indexed h (without_hub h.id (s.hubs_by_type h.hub_type)) s.hubs_by_id s.hubs_by_type
      (λ id. filter-without_hub id h.id (s.hubs_by_type h.hub_type))
      (λ t o. others_empty h s.hubs_by_id s.hubs_by_type t i k o) i

pub take_out-Indexed :
    (k : String) (h : Hub) (by_id : Dict Hub) (by_type : HubsByType)
    → lookup k by_id ≡ some h
    → Indexed by_id by_type
    → Indexed (remove k by_id) (set_type h.hub_type (without_hub k (by_type h.hub_type)) by_type)
unfolding set_type
take_out-Indexed k h by_id by_type found i t id =
    elim (Bool-cases (type_name h.hub_type == type_name t)) [
      | inl same ↦ rw (← type_name-injective h.hub_type t ((eq_iff _ _).0 same)) (
          rw
            (
              eq_refl (type_name h.hub_type),
              lookup-remove k id by_id,
              filter-without_hub id k (by_type h.hub_type),
            )
            (ground (arith, i h.hub_type id)))
      | inr other ↦
          rw (other, lookup-remove k id by_id)
            (ground (arith, eq_iff k id, i t id, i t k, found, other))
    ]
