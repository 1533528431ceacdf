-- ===== src/Upload/Models.antt =====
-- The models on offer in IngestionUploadModal.tsx.
use cont_ained.Base.{
  ℕ, ◌≤◌, String, Bool, false, Option, none, some, List, [], ◌∷◌, ◌++◌, ◌==◌, ◌≡◌, refl, sym, ap,
  ◌∙◌, arith, any, filter, length, length-append, filter-append, get_or, or_text, eq_iff,
  Bool-cases, inl, inr, if◌then◌else◌,
}
use mathlib.Core.Path.{subst}
use mathlib.Core.List.{append_assoc, append-nil}

-- A model of the registry, as far as the modal reads it, and the models of one role.
pub record Entry : Type 0 where
  pub model_id : String
  pub display_name : String
  pub provider : String

pub record RoleModels : Type 0 where
  pub active : Option Entry
  pub available : Option (List Entry)

-- An item of `availableLLMs`.
pub record Model : Type 0 where
  pub id : String
  pub name : String
  pub provider : String

abbrev model_of : Entry → Model
model_of e = record {
  id = e.model_id;
  name = or_text e.display_name e.model_id;
  provider = or_text e.provider "Custom";
}

abbrev pub offered : String → List Model → Bool
offered id items = any (λ m. m.id == id) items

-- A model is pushed unless its id is there.
unfoldable pub push_model : Entry → List Model → List Model
push_model e items = if offered e.model_id items then items else items ++ model_of e ∷ []

unfoldable pub push_models : List Entry → List Model → List Model
unfolding push_model
push_models [] items = items
push_models (e ∷ entries) items = push_models entries (push_model e items)

-- `loadModels`: the default models, then those of each role.
unfoldable pub load_models : List RoleModels → List Model → List Model
unfolding push_models push_model
load_models [] items = items
load_models (r ∷ roles) items = load_models roles (
    push_models (get_or r.available [])
      (elim r.active [ none ↦ items | some e ↦ push_model e items ]))

-- How many items have the id.
abbrev pub count : String → List Model → ℕ
count id items = length (filter (λ m. m.id == id) items)

-- No id is there twice.
abbrev pub IsUnique : List Model → Type 0
IsUnique items = (id : String) → count id items ≤ 1

count_absent : (id : String) (items : List Model) → offered id items ≡ false → count id items ≡ 0
count_absent id [] h = refl
count_absent id (m ∷ items) h = ground (arith, count_absent id items, h)

-- What is there stays in front, and no id comes a second time.
abbrev Grows : List Model → List Model → Type 0
Grows items more = ((rest : List Model) × (more ≡ items ++ rest)) × (IsUnique items → IsUnique more)

Grows-refl : (items : List Model) → Grows items items
Grows-refl items = (([], sym (append-nil items)), λ u. u)

Grows-trans : (a b c : List Model) → Grows a b → Grows b c → Grows a c
Grows-trans a b c ((r, e), u) ((q, f), v) =
    ((r ++ q, f ∙ (ap (λ l. l ++ q) e ∙ append_assoc a r q)), λ w. v (u w))

count-push :
    (id : String) (e : Entry) (items : List Model)
    → offered e.model_id items ≡ false
    → count id items ≤ 1
    → count id (items ++ model_of e ∷ []) ≤ 1
count-push id e items h u =
    rw (filter-append (λ m. m.id == id) items (model_of e ∷ []))
      (elim (Bool-cases (e.model_id == id)) [
        | inl same ↦ rw same (
            omega (
              arith,
              length-append (filter (λ m. m.id == id) items) (model_of e ∷ []),
              count_absent id items
                  (subst (λ k. offered k items ≡ false) ((eq_iff e.model_id id).0 same) h),
            ))
        | inr other ↦ rw other (omega (arith, length-append (filter (λ m. m.id == id) items) [], u))
      ])

push_model-Grows : (e : Entry) (items : List Model) → Grows items (push_model e items)
unfolding push_model
push_model-Grows e items = elim (Bool-cases (offered e.model_id items)) [
  | inl there ↦ rw there (Grows-refl items)
  | inr absent ↦ rw absent ((model_of e ∷ [], refl), λ u id. count-push id e items absent (u id))
]

push_models-Grows :
    (entries : List Entry) (items : List Model) → Grows items (push_models entries items)
unfolding push_models
push_models-Grows [] items = Grows-refl items
push_models-Grows (e ∷ entries) items =
    Grows-trans items (push_model e items) (push_models entries (push_model e items))
      (push_model-Grows e items) (push_models-Grows entries (push_model e items))

load_models-Grows :
    (roles : List RoleModels) (items : List Model) → Grows items (load_models roles items)
unfolding load_models
load_models-Grows [] items = Grows-refl items
load_models-Grows (r ∷ roles) items =
    Grows-trans items with_active (load_models roles with_all) (first r.active) (
      Grows-trans with_active with_all (load_models roles with_all)
        (push_models-Grows (get_or r.available []) with_active) (load_models-Grows roles with_all))
  where
    with_active : List Model
    with_active = elim r.active [ none ↦ items | some e ↦ push_model e items ]

    with_all : List Model
    with_all = push_models (get_or r.available []) with_active

    first :
        (active : Option Entry)
        → Grows items (elim active [ none ↦ items | some e ↦ push_model e items ])
    first none = Grows-refl items
    first (some e) = push_model-Grows e items

-- If no default model stands twice, the modal offers the default models first and in their order, and
-- no model twice, whatever the registry holds.
pub load_models-IsUnique :
    (roles : List RoleModels) (defaults : List Model)
    → IsUnique defaults
    → ((rest : List Model) × (load_models roles defaults ≡ defaults ++ rest))
      × IsUnique (load_models roles defaults)
load_models-IsUnique roles defaults u =
    ((load_models-Grows roles defaults).0, (load_models-Grows roles defaults).1 u)
