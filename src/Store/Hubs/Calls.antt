-- ===== src/Store/Hubs/Calls.antt =====
-- What the calls of hubSlice.ts do to the two indexes.
use cont_ained.Base.{
  String, Option, none, some, [], ◌∷◌, ◌==◌, ◌≡◌, ◌≢◌, inl, inr, refl, sym, ap, ◌∙◌, filter,
  if◌then◌else◌, arith, eq_iff, eq_refl, Option-cases, eq-false_of_ne,
}
use cont_ained.Base.Dict.{lookup, remove, lookup-insert, lookup-remove}
use cont_ained.Routes.{HubType, type_name}
use cont_ained.Routes.RoundTrip.{type_name-injective}
use cont_ained.Store.Hubs.{
  Hub, HubSliceState, set_type, without_hub, upsert_hub, deactivate, remove_hub, HubCall,
  sets_active, sets_hubs, upserts, removes, sets_members, sets_links, sets_status, evicts, hub_step,
}
use cont_ained.Store.Hubs.Index.{
  hub_has_id, entry, IsIndexed, Distinct, KeepsType, set_hubs-IsIndexed, upsert_hub-IsIndexed,
  take_out-Indexed,
}

-- What a call is given: a fetched list has each id once, and an updated hub keeps its type.
abbrev pub GoodCall : HubCall → HubSliceState → Type 0
GoodCall (sets_hubs hubs) s = Distinct hubs
GoodCall (upserts h) s = KeepsType h s.hubs_by_id
GoodCall _ s = Unit

pub remove_hub-IsIndexed :
    (id : String) (s : HubSliceState) → IsIndexed s → IsIndexed (remove_hub id s)
unfolding remove_hub
remove_hub-IsIndexed id s i = removed (lookup id s.hubs_by_id) refl
  where
    removed :
        (found : Option Hub)
        → lookup id s.hubs_by_id ≡ found
        → IsIndexed (elim found [
          | none ↦ s
          | some hub ↦ record s {
            hubs_by_id = remove id s.hubs_by_id;
            hubs_by_type =
                set_type hub.hub_type (without_hub id (s.hubs_by_type hub.hub_type)) s.hubs_by_type;
            active_hub_id = deactivate id s.active_hub_id;
          }
        ])
    removed none e = i
    removed (some hub) e = take_out-Indexed id hub s.hubs_by_id s.hubs_by_type e i

-- Every call of the slice keeps the two indexes in agreement: under each id, the list of each type
-- holds the hub of the dictionary if it has that type, once, and nothing else. A list that
-- `setHubs` stores has each id once, and a hub that `upsertHub` stores has the type of the stored
-- one.
pub hub_step-IsIndexed :
    (c : HubCall) (s : HubSliceState) → GoodCall c s → IsIndexed s → IsIndexed (hub_step c s)
unfolding hub_step
hub_step-IsIndexed (sets_active id) s g i = i
hub_step-IsIndexed (sets_hubs hubs) s g i = set_hubs-IsIndexed hubs s g
hub_step-IsIndexed (upserts h) s g i = upsert_hub-IsIndexed h s g i
hub_step-IsIndexed (removes id) s g i = remove_hub-IsIndexed id s i
hub_step-IsIndexed (sets_members id members) s g i = i
hub_step-IsIndexed (sets_links id links) s g i = i
hub_step-IsIndexed (sets_status status error_) s g i = i
hub_step-IsIndexed (evicts id) s g i = i

remove_hub-lookup :
    (id j : String) (s : HubSliceState)
    → lookup j (remove_hub id s).hubs_by_id ≡ (if id == j then none else lookup j s.hubs_by_id)
unfolding remove_hub
remove_hub-lookup id j s = elim (Option-cases (lookup id s.hubs_by_id)) [
  | inl n ↦ rw (remove_hub, n) (ground (arith, eq_iff id j, n))
  | inr (h, e) ↦ rw (remove_hub, e) (lookup-remove id j s.hubs_by_id)
]

-- After `removeHub` on agreeing indexes neither index holds the id, and under every other id the
-- dictionary and the lists hold what they held.
pub remove_hub_lem :
    (id : String) (s : HubSliceState)
    → IsIndexed s
    → (lookup id (remove_hub id s).hubs_by_id ≡ none)
      × ((t : HubType) → filter (hub_has_id id) ((remove_hub id s).hubs_by_type t) ≡ [])
      × ((j : String)
          → j ≢ id
          → (lookup j (remove_hub id s).hubs_by_id ≡ lookup j s.hubs_by_id)
            × ((t : HubType)
                → filter (hub_has_id j) ((remove_hub id s).hubs_by_type t)
                  ≡ filter (hub_has_id j) (s.hubs_by_type t)))
remove_hub_lem id s i = (gone, λ t. remove_hub-IsIndexed id s i t id ∙ rw gone refl, others)
  where
    gone : lookup id (remove_hub id s).hubs_by_id ≡ none
    gone = remove_hub-lookup id id s ∙ rw (eq_refl id) refl

    others :
        (j : String)
        → j ≢ id
        → (lookup j (remove_hub id s).hubs_by_id ≡ lookup j s.hubs_by_id)
          × ((t : HubType)
              → filter (hub_has_id j) ((remove_hub id s).hubs_by_type t)
                ≡ filter (hub_has_id j) (s.hubs_by_type t))
    others j ne =
        let kept : lookup j (remove_hub id s).hubs_by_id ≡ lookup j s.hubs_by_id =
          remove_hub-lookup id j s ∙ rw (eq-false_of_ne id j (λ e. ne (sym e))) refl in
        (kept, λ t. remove_hub-IsIndexed id s i t j ∙ ap (entry t) kept ∙ sym (i t j))

-- When `upsertHub` on agreeing indexes stores a hub under another type than the stored one has,
-- the old one stays in the list of its type, while the dictionary holds the new one.
pub upsert_hub_stale :
    (h old : Hub) (s : HubSliceState)
    → IsIndexed s
    → lookup h.id s.hubs_by_id ≡ some old
    → old.hub_type ≢ h.hub_type
    → (filter (hub_has_id h.id) ((upsert_hub h s).hubs_by_type old.hub_type) ≡ old ∷ [])
      × (lookup h.id (upsert_hub h s).hubs_by_id ≡ some h)
unfolding upsert_hub set_type
upsert_hub_stale h old s i l ne = (
  rw
      (eq-false_of_ne (type_name h.hub_type) (type_name old.hub_type)
        (λ e. ne (sym (type_name-injective h.hub_type old.hub_type e))))
      (i old.hub_type h.id ∙ rw (l, eq_refl (type_name old.hub_type)) refl),
  lookup-insert h.id h.id h s.hubs_by_id ∙ rw (eq_refl h.id) refl,
)
