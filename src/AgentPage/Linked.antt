-- ===== src/AgentPage/Linked.antt =====
-- frontend/src/components/hubs/agent/AgentDetail.tsx: `fetchKnowledgeData`, and `fetchModels`, which is
-- the code of the playground.
use cont_ained.Base.{
  String, Bool, true, Option, none, some, List, [], ◌∷◌, ◌==◌, ◌≡◌, refl, arith, map, filter,
  get_or, if◌then◌else◌, All, is_some, ap, Option-cases, eq_iff, inl, inr,
}
use cont_ained.AgentPage.Data.{Hub, Collection, LinkedHub}
use cont_ained.Playground.Models.{RoleModels, ModelItem, fetch_model_registry}

-- `fetchModels`.
unfoldable pub fetch_models : Option (List RoleModels) → List ModelItem → List ModelItem
unfolding fetch_model_registry
fetch_models reply shown = fetch_model_registry reply shown

-- What the list of collections of a hub answers: an array, an object that may hold one, or nothing.
pub data CollectionsReply : Type 0 where
  array : List Collection → CollectionsReply
  object : Option (List Collection) → CollectionsReply
  list_failed : CollectionsReply

unfoldable pub collections_of : CollectionsReply → List Collection
collections_of (array l) = l
collections_of (object l) = get_or l []
collections_of list_failed = []

-- `new Map(allHubs.map((h) => [h.id, h])).get(id)`: of two hubs with one id the last one counts.
unfoldable pub hub_at : String → List Hub → Option Hub
hub_at id [] = none
hub_at id (h ∷ hubs) = elim (hub_at id hubs) [
  | none ↦ if h.id == id then some h else none
  | some x ↦ some x
]

-- The target of a link, if it is an ingestion hub.
unfoldable pub ingestion_target : List Hub → String → Option Hub
ingestion_target hubs target = elim (hub_at target hubs) [
  | none ↦ none
  | some h ↦ if h.hub_type == "ingestion" then some h else none
]

-- `fetchKnowledgeData`: the hubs that the links lead to, each with the collections that it lists;
-- nothing if the links or the hubs cannot be fetched.
unfoldable pub linked_hubs : List Hub → (String → CollectionsReply) → List String → List LinkedHub
linked_hubs hubs collections [] = []
linked_hubs hubs collections (target ∷ links) =
    let rest : List LinkedHub = linked_hubs hubs collections links in
    elim (ingestion_target hubs target) [
      | none ↦ rest
      | some h ↦ record { hub = h; collections = collections_of (collections target) } ∷ rest
    ]

unfoldable pub fetch_knowledge :
    Option (List String) → Option (List Hub) → (String → CollectionsReply) → Option (List LinkedHub)
fetch_knowledge (some links) (some hubs) collections = some (linked_hubs hubs collections links)
fetch_knowledge (some links) none collections = none
fetch_knowledge none hubs collections = none

abbrev leads : List Hub → String → Bool
leads hubs target = is_some (ingestion_target hubs target)

hub_at-id : (id : String) (hubs : List Hub) (h : Hub) → hub_at id hubs ≡ some h → h.id ≡ id
unfolding hub_at
hub_at-id id [] h e = absurd (ground arith)
hub_at-id id (x ∷ hubs) h e = elim (Option-cases (hub_at id hubs)) [
  | inl missing ↦ ground (arith, missing, eq_iff x.id id)
  | inr (y, there) ↦ ground (arith, there, hub_at-id id hubs y there)
]

ingestion_target_lem :
    (hubs : List Hub) (target : String) (h : Hub)
    → ingestion_target hubs target ≡ some h
    → (h.id ≡ target) × ((h.hub_type == "ingestion") ≡ true)
unfolding ingestion_target
ingestion_target_lem hubs target h e = elim (Option-cases (hub_at target hubs)) [
  | inl missing ↦ absurd (ground (arith, missing))
  | inr (x, there) ↦ ground (arith, there, hub_at-id target hubs x there)
]

cons_eq : {x y : String} {xs ys : List String} → x ≡ y → xs ≡ ys → x ∷ xs ≡ y ∷ ys
cons_eq e f = cc

-- The knowledge tab shows one hub for each link to an ingestion hub, in the order of the links,
-- with the id that the link names, and with the collections that it lists, or none if it fails.
pub linked_hubs_lem :
    (hubs : List Hub) (collections : String → CollectionsReply) (links : List String)
    → let shown = linked_hubs hubs collections links in
      (map (λ l. l.hub.id) shown ≡ filter (leads hubs) links)
      × (map (λ l. l.collections) shown
          ≡ map (λ t. collections_of (collections t)) (filter (leads hubs) links))
      × All (λ (l : LinkedHub). (l.hub.hub_type == "ingestion") ≡ true) shown
unfolding linked_hubs
linked_hubs_lem hubs collections [] = (refl, refl, tt)
linked_hubs_lem hubs collections (target ∷ links) =
    let (ids, lists, types) = linked_hubs_lem hubs collections links in
    elim (Option-cases (ingestion_target hubs target)) [
      | inl other ↦ rw (other, linked_hubs) (ids, lists, types)
      | inr (h, there) ↦
          let (id, type) = ingestion_target_lem hubs target h there in
          rw (there, linked_hubs)
            (cons_eq id ids, ap (◌∷◌ (collections_of (collections target))) lists, (type, types))
    ]
