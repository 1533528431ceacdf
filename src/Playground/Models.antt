-- ===== src/Playground/Models.antt =====
-- frontend/src/components/PlaygroundPage.tsx: `fetchModelRegistry`.
use mathlib.Core.Path.{subst}
use cont_ained.Base.{
  String, Bool, false, ◌||◌, Option, none, some, List, [], ◌∷◌, ◌++◌, ◌==◌, ◌≡◌, refl, sym, arith,
  any, get_or, eq_iff, true, ap, ◌∙◌, Bool-cases, inl, inr, if◌then◌else◌,
}

-- `ModelRegistryEntry`, as far as the page reads it.
pub record ModelRegistryEntry : Type 0 where
  pub model_id : String
  pub display_name : String
  pub provider : String
  pub is_selectable : Option Bool

-- The models of one role in `ModelRegistryResponse`.
pub record RoleModels : Type 0 where
  pub active : Option ModelRegistryEntry
  pub available : Option (List ModelRegistryEntry)

-- An item of `availableModels`.
pub record ModelItem : Type 0 where
  pub id : String
  pub name : String
  pub provider : String
  pub is_selectable : Option Bool

abbrev model_item : ModelRegistryEntry → ModelItem
model_item e = record {
  id = e.model_id;
  name = e.display_name;
  provider = e.provider;
  is_selectable = e.is_selectable;
}

-- `items.some((m) => m.id === id)`.
abbrev pub listed : String → List ModelItem → Bool
listed id items = any (λ m. m.id == id) items

-- The active model of a role is pushed without a look at what is there.
unfoldable pub push_active : Option ModelRegistryEntry → List ModelItem → List ModelItem
push_active none items = items
push_active (some e) items = items ++ model_item e ∷ []

unfoldable pub push_available : List ModelRegistryEntry → List ModelItem → List ModelItem
push_available [] items = items
push_available (e ∷ entries) items =
    push_available entries (if listed e.model_id items then items else items ++ model_item e ∷ [])

unfoldable pub push_roles : List RoleModels → List ModelItem → List ModelItem
push_roles [] items = items
push_roles (r ∷ roles) items =
    push_roles roles (push_available (get_or r.available []) (push_active r.active items))

-- `fetchModelRegistry`: the models of the registry, unless there are none or the request fails.
unfoldable pub fetch_model_registry : Option (List RoleModels) → List ModelItem → List ModelItem
fetch_model_registry none shown = shown
fetch_model_registry (some roles) shown = elim (push_roles roles []) [
  | [] ↦ shown
  | m ∷ items ↦ m ∷ items
]

-- The role names the model.
abbrev pub mentions : String → RoleModels → Bool
mentions id r =
    elim r.active [ none ↦ false | some e ↦ e.model_id == id ]
    || any (λ e. e.model_id == id) (get_or r.available [])

listed-append :
    (id : String) (xs ys : List ModelItem) → listed id (xs ++ ys) ≡ (listed id xs || listed id ys)
listed-append id [] ys = refl
listed-append id (x ∷ xs) ys = ground (arith, listed-append id xs ys)

listed-push_active :
    (id : String) (active : Option ModelRegistryEntry) (items : List ModelItem)
    → listed id (push_active active items)
      ≡ (listed id items || elim active [ none ↦ false | some e ↦ e.model_id == id ])
unfolding push_active
listed-push_active id none items = ground arith
listed-push_active id (some e) items = ground (arith, listed-append id items (model_item e ∷ []))

listed-push_available :
    (id : String) (entries : List ModelRegistryEntry) (items : List ModelItem)
    → listed id (push_available entries items)
      ≡ (listed id items || any (λ e. e.model_id == id) entries)
unfolding push_available
listed-push_available id [] items = ground arith
listed-push_available id (e ∷ entries) items = elim (Bool-cases (listed e.model_id items)) [
  | inl k ↦ rw k (listed-push_available id entries items ∙ known k)
  | inr k ↦ rw k (
      ground (
        arith,
        listed-push_available id entries (items ++ model_item e ∷ []),
        listed-append id items (model_item e ∷ []),
      ))
]
  where
    known :
        listed e.model_id items ≡ true
        → (listed id items || any (λ x. x.model_id == id) entries)
          ≡ (listed id items || ((e.model_id == id) || any (λ x. x.model_id == id) entries))
    known k = elim (Bool-cases (e.model_id == id)) [
      | inl same ↦
          ground (arith, subst (λ i. listed i items ≡ true) ((eq_iff e.model_id id).0 same) k)
      | inr other ↦ rw other refl
    ]

listed-push_roles :
    (id : String) (roles : List RoleModels) (items : List ModelItem)
    → listed id (push_roles roles items) ≡ (listed id items || any (mentions id) roles)
unfolding push_roles
listed-push_roles id [] items = ground arith
listed-push_roles id (r ∷ roles) items = ground (
  arith,
  listed-push_roles id roles (push_available (get_or r.available []) (push_active r.active items)),
  listed-push_available id (get_or r.available []) (push_active r.active items),
  listed-push_active id r.active items,
)

-- Once the registry is loaded and names a model at all, the page offers exactly the models that some
-- role names, as its active model or among those that are available.
pub listed-fetch_model_registry :
    (id other : String) (roles : List RoleModels) (before : List ModelItem)
    → any (mentions other) roles ≡ true
    → listed id (fetch_model_registry (some roles) before) ≡ any (mentions id) roles
unfolding fetch_model_registry
listed-fetch_model_registry id other roles before h = go (push_roles roles []) refl
  where
    go :
        (items : List ModelItem)
        → push_roles roles [] ≡ items
        → listed id (fetch_model_registry (some roles) before) ≡ any (mentions id) roles
    go [] e = absurd (ground (arith, listed-push_roles other roles [], ap (listed other) e, h))
    go (m ∷ items) e =
        rw (e, fetch_model_registry) (sym (ap (listed id) e) ∙ listed-push_roles id roles [])
