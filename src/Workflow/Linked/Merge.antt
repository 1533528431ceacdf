-- ===== src/Workflow/Linked/Merge.antt =====
-- What WorkflowEditor.tsx makes of the lists of the linked hubs.
use cont_ained.Base.{
  Option, ℕ, ◌≤◌, ◌⊎◌, String, Bool, true, false, ◌||◌, ◌&&◌, not, none, List, [], ◌∷◌, ◌++◌, ◌==◌,
  ◌≡◌, refl, ap, ◌∙◌, arith, any-append, is_some, any, length, filter, eq_iff, Bool-cases, inl, inr,
  if◌then◌else◌,
}
use mathlib.Core.Path.{subst}
use cont_ained.Store.Hubs.{HubLink}
use cont_ained.Workflow.Linked.{
  array_of, collections_of, hub_ids, Kind, of_agents, of_collections, of_suites, of_credentials,
  LinkedResources, fetch_kind, fetch_linked, Listing, Resources, gather, dedup, fetch_resources,
  Items, fails_of,
}

module _ {ℓ} {A : Type ℓ} (id_of : A → String) where
  -- The list has an item of the id, and how many it has.
  abbrev pub has_id : String → List A → Bool
  has_id id xs = any (λ x. id_of x == id) xs

  abbrev pub count_id : String → List A → ℕ
  count_id id xs = length (filter (λ x. id_of x == id) xs)

  abbrev is_seen : String → List String → Bool
  is_seen id seen = any (λ y. y == id) seen

  has_id-append :
      (id : String) (xs ys : List A) → has_id id (xs ++ ys) ≡ (has_id id xs || has_id id ys)
  has_id-append id [] ys = refl
  has_id-append id (x ∷ xs) ys = ground (arith, has_id-append id xs ys)

  has_id-gather :
      (items_of : Listing A → List A) (list : String → Listing A) (hubs : List String) (id : String)
      → has_id id (gather items_of list hubs) ≡ any (λ h. has_id id (items_of (list h))) hubs
  unfolding gather
  has_id-gather items_of list [] id = refl
  has_id-gather items_of list (h ∷ hubs) id = ground (
    arith,
    has_id-append id (items_of (list h)) (gather items_of list hubs),
    has_id-gather items_of list hubs id,
  )

  has_id-dedup :
      (id : String) (seen : List String) (xs : List A)
      → has_id id (dedup id_of seen xs) ≡ (has_id id xs && not (is_seen id seen))
  unfolding dedup
  has_id-dedup id seen [] = refl
  has_id-dedup id seen (x ∷ xs) = elim (Bool-cases (is_seen (id_of x) seen)) [
    | inl k ↦ rw k (has_id-dedup id seen xs ∙ known k)
    | inr k ↦ rw k (ground (arith, has_id-dedup id (id_of x ∷ seen) xs, fresh k))
  ]
    where
      known :
          is_seen (id_of x) seen ≡ true
          → (has_id id xs && not (is_seen id seen))
            ≡ (((id_of x == id) || has_id id xs) && not (is_seen id seen))
      known k = elim (Bool-cases (id_of x == id)) [
        | inl same ↦
            ground
              (arith, same, subst (λ i. is_seen i seen ≡ true) ((eq_iff (id_of x) id).0 same) k)
        | inr not_same ↦ rw not_same refl
      ]

      fresh : is_seen (id_of x) seen ≡ false → (id_of x == id) ≡ true → is_seen id seen ≡ false
      fresh k same = subst (λ i. is_seen i seen ≡ false) ((eq_iff (id_of x) id).0 same) k

  count_id-dedup :
      (id : String) (seen : List String) (xs : List A)
      → count_id id (dedup id_of seen xs) ≤ (if is_seen id seen then 0 else 1)
  unfolding dedup
  count_id-dedup id seen [] = ground arith
  count_id-dedup id seen (x ∷ xs) = elim (Bool-cases (is_seen (id_of x) seen)) [
    | inl k ↦ rw k (count_id-dedup id seen xs)
    | inr k ↦ rw k (elim (Bool-cases (id_of x == id)) [
      | inl same ↦
          rw (same, subst (λ i. is_seen i seen ≡ false) ((eq_iff (id_of x) id).0 same) k)
            (ground (arith, count_id-dedup id (id_of x ∷ seen) xs, same))
      | inr not_same ↦ rw not_same (ground (arith, count_id-dedup id (id_of x ∷ seen) xs, not_same))
    ])
  ]

any_null-gather :
    {A : Type 0} (is_null : A → Bool) (items_of : Listing A → List A) (list : String → Listing A)
    (hubs : List String)
    → any is_null (gather items_of list hubs) ≡ any (λ h. any is_null (items_of (list h))) hubs
unfolding gather
any_null-gather is_null items_of list [] = refl
any_null-gather is_null items_of list (h ∷ hubs) =
    any-append is_null (items_of (list h)) (gather items_of list hubs)
    ∙ ap (λ b. any is_null (items_of (list h)) || b) (any_null-gather is_null items_of list hubs)

-- What a fetch ends with that met a null or not.
abbrev pub IsFetched :
    {A : Type 0} → (A → String) → (Bool × Bool) → String → Resources A → Resources A → Type 0
IsFetched id_of (broken, listed) id before after =
    (((broken ≡ true) × ((after.items ≡ before.items) × (is_some after.error ≡ true)))
      ⊎ ((broken ≡ false)
          × ((after.error ≡ none)
              × ((has_id id_of id after.items ≡ listed) × (count_id id_of id after.items ≤ 1)))))
    × (after.loading ≡ false)

fetch_resources_lem :
    {A : Type 0} (values : Items A) (items_of : Listing A → List A) (fails : String)
    (list : String → Listing A) (hubs : List String) (before : Resources A) (id : String)
    → IsFetched values.id_of
        (
          any (λ h. any values.is_null (items_of (list h))) hubs,
          any (λ h. has_id values.id_of id (items_of (list h))) hubs,
        )
        id
        before
        (fetch_resources items_of fails values list hubs before)
unfolding fetch_resources
fetch_resources_lem {A} values items_of fails list hubs before id =
    elim (Bool-cases (any (λ h. any values.is_null (items_of (list h))) hubs)) [
      | inl null ↦
          rw (any_null-gather values.is_null items_of list hubs, null)
            (inl (refl, (refl, refl)), refl)
      | inr sound ↦
          rw (any_null-gather values.is_null items_of list hubs, sound)
            (inr (refl, (refl, (listed, once))), refl)
    ]
  where
    gathered : List A
    gathered = gather items_of list hubs

    listed :
        has_id values.id_of id (dedup values.id_of [] gathered)
        ≡ any (λ h. has_id values.id_of id (items_of (list h))) hubs
    listed = ground (
      arith,
      has_id-dedup values.id_of id [] gathered,
      has_id-gather values.id_of items_of list hubs id,
    )

    once : count_id values.id_of id (dedup values.id_of [] gathered) ≤ 1
    once = count_id-dedup values.id_of id [] gathered

-- The resources of a kind, and what its fetch takes of an answer.
abbrev pub resources_of : {A : Type 0} → Kind → LinkedResources A → Resources A
resources_of of_agents r = r.agents
resources_of of_collections r = r.collections
resources_of of_suites r = r.eval_suites
resources_of of_credentials r = r.credentials

abbrev pub taken_of : {A : Type 0} → Kind → Listing A → List A
taken_of of_collections x = collections_of x
taken_of kind x = array_of x

-- A fetch of all four kinds ends, for each kind, whatever the other kinds and the hubs that fail do:
-- if an item that the hub or a hub that it links to lists is null, then with an error, and the items
-- of the kind stay as they were; otherwise without an error, and with the items that those hubs list,
-- each id once. The kind does not load any more.
pub fetch_linked_lem :
    {A : Type 0} (values : Items A) (list : Kind → String → Listing A) (hub_id : String)
    (links : Option (List HubLink)) (before : LinkedResources A) (kind : Kind) (id : String)
    → let hubs : List String = hub_ids hub_id links in
      IsFetched values.id_of
        (
          any (λ h. any values.is_null (taken_of kind (list kind h))) hubs,
          any (λ h. has_id values.id_of id (taken_of kind (list kind h))) hubs,
        )
        id
        (resources_of kind before)
        (resources_of kind (fetch_linked values list hub_id links none before))
unfolding fetch_linked fetch_kind
fetch_linked_lem values list hub_id links before of_agents id =
    fetch_resources_lem values array_of (fails_of of_agents) (list of_agents) (hub_ids hub_id links)
      before.agents id
fetch_linked_lem values list hub_id links before of_collections id =
    fetch_resources_lem values collections_of (fails_of of_collections) (list of_collections)
      (hub_ids hub_id links) before.collections id
fetch_linked_lem values list hub_id links before of_suites id =
    fetch_resources_lem values array_of (fails_of of_suites) (list of_suites) (hub_ids hub_id links)
      before.eval_suites id
fetch_linked_lem values list hub_id links before of_credentials id =
    fetch_resources_lem values array_of (fails_of of_credentials) (list of_credentials)
      (hub_ids hub_id links) before.credentials id
