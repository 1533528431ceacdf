-- ===== src/Workflow/Linked.antt =====
-- frontend/src/components/hubs/workflow/WorkflowEditor.tsx, `fetchLinkedHubResources`: the agents,
-- collections, suites and credentials of the hub and of the hubs that it consumes. The four fetches
-- differ in their request and in a message: what a hub answers is a parameter, and so is what is read
-- of an item.
pub mod Merge
use cont_ained.Base.{
  or_text, String, Bool, true, false, Option, none, some, List, [], ◌∷◌, ◌++◌, ◌==◌, any,
  if◌then◌else◌,
}
use cont_ained.Store.Hubs.{HubLink}

-- What a request for a list comes back with: a list, an object with `collections` or `items`, another
-- value, or an error.
pub data Listing {ℓ} (A : Type ℓ) : Type ℓ where
  array : List A → Listing A
  wrapped : Option (List A) → Option (List A) → Listing A
  other failed : Listing A

-- The `id` of an item, the test for `null` and `undefined`, whose `id` cannot be read, and the message
-- of the error that reading it throws.
pub record Items {ℓ} (A : Type ℓ) : Type ℓ where
  pub id_of : A → String
  pub is_null : A → Bool
  pub thrown : String

-- The state of one kind of resource.
pub record Resources {ℓ} (A : Type ℓ) : Type ℓ where
  pub items : List A
  pub loading : Bool
  pub error : Option String

-- `set.add(x)`: a set keeps the order of its first insertions.
abbrev pub add_id : String → List String → List String
add_id x ids = if any (λ y. y == x) ids then ids else ids ++ x ∷ []

-- `hubIds`: the hub itself, then the targets of its links, an empty target left out.
unfoldable pub add_targets : List HubLink → List String → List String
add_targets [] ids = ids
add_targets (l ∷ links) ids =
    add_targets links (if l.target_hub_id == "" then ids else add_id l.target_hub_id ids)

unfoldable pub hub_ids : String → Option (List HubLink) → List String
hub_ids hub_id none = hub_id ∷ []
hub_ids hub_id (some links) = add_targets links (hub_id ∷ [])

module _ {ℓ} {A : Type ℓ} where
  -- What `fetchAgents`, `fetchEvalSuites` and `fetchCredentials` take of an answer, and what
  -- `fetchCollections` takes.
  unfoldable pub array_of : Listing A → List A
  array_of (array xs) = xs
  array_of (wrapped collections items) = []
  array_of other = []
  array_of failed = []

  unfoldable pub collections_of : Listing A → List A
  collections_of (array xs) = xs
  collections_of (wrapped (some xs) items) = xs
  collections_of (wrapped none (some xs)) = xs
  collections_of (wrapped none none) = []
  collections_of other = []
  collections_of failed = []

  -- The loop over the hubs.
  unfoldable pub gather : (Listing A → List A) → (String → Listing A) → List String → List A
  gather items_of list [] = []
  gather items_of list (h ∷ hubs) = items_of (list h) ++ gather items_of list hubs

  -- The filter by `seen`.
  unfoldable pub dedup : (A → String) → List String → List A → List A
  dedup id_of seen [] = []
  dedup id_of seen (x ∷ xs) =
      let known : Bool = any (λ y. y == id_of x) seen in
      let rest : List A = dedup id_of (if known then seen else id_of x ∷ seen) xs in
      if known then rest else x ∷ rest

  -- One of the four fetches from its start to its end: an error of a hub is caught at that hub, an
  -- error of the filter at the end. The text is that of an error without a message.
  unfoldable pub fetch_resources :
      (Listing A → List A)
      → String
      → Items A
      → (String → Listing A)
      → List String
      → Resources A
      → Resources A
  fetch_resources items_of fails values list hubs r =
      let gathered : List A = gather items_of list hubs in
      if any values.is_null gathered
      then record r { loading = false; error = some (or_text values.thrown fails) }
      else record { items = dedup values.id_of [] gathered; loading = false; error = none }

  -- What a fetch does before its first request.
  abbrev pub start_resources : Resources A → Resources A
  start_resources r = record r { loading = true; error = none }

-- The four kinds of resource, and the argument `only`.
pub data Kind : Type 0 where
  of_agents of_collections of_suites of_credentials : Kind

-- The resources of the page; one type stands for the items of all four.
pub record LinkedResources {ℓ} (A : Type ℓ) : Type ℓ where
  pub agents : Resources A
  pub collections : Resources A
  pub eval_suites : Resources A
  pub credentials : Resources A

-- The text of an error without a message.
abbrev pub fails_of : Kind → String
fails_of of_agents = "Failed to load agents"
fails_of of_collections = "Failed to load collections"
fails_of of_suites = "Failed to load eval suites"
fails_of of_credentials = "Failed to load DB credentials"

module _ {ℓ} {A : Type ℓ} where
  -- The fetch of one kind.
  unfoldable pub fetch_kind :
      Items A
      → (Kind → String → Listing A)
      → List String
      → Kind
      → LinkedResources A
      → LinkedResources A
  unfolding fetch_resources
  fetch_kind values list hubs of_agents r = record r {
    agents = fetch_resources array_of (fails_of of_agents) values (list of_agents) hubs r.agents;
  }
  fetch_kind values list hubs of_collections r = record r {
    collections =
        fetch_resources collections_of (fails_of of_collections) values (list of_collections) hubs
          r.collections;
  }
  fetch_kind values list hubs of_suites r = record r {
    eval_suites =
        fetch_resources array_of (fails_of of_suites) values (list of_suites) hubs r.eval_suites;
  }
  fetch_kind values list hubs of_credentials r = record r {
    credentials =
        fetch_resources array_of (fails_of of_credentials) values (list of_credentials) hubs
          r.credentials;
  }

  -- `fetchLinkedHubResources`: one kind, or all of them.
  unfoldable pub fetch_linked :
      Items A
      → (Kind → String → Listing A)
      → String
      → Option (List HubLink)
      → Option Kind
      → LinkedResources A
      → LinkedResources A
  unfolding fetch_kind hub_ids
  fetch_linked values list hub_id links (some kind) r =
      fetch_kind values list (hub_ids hub_id links) kind r
  fetch_linked values list hub_id links none r =
      let hubs : List String = hub_ids hub_id links in
      fetch_kind values list hubs of_credentials (
        fetch_kind values list hubs of_suites
          (fetch_kind values list hubs of_collections (fetch_kind values list hubs of_agents r)))
