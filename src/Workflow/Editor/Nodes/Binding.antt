-- ===== src/Workflow/Editor/Nodes/Binding.antt =====
-- The auto-binding of hub resources in WorkflowEditor.tsx against the validation badge.
use cont_ained.Base.{
  ◌≡◌, ◌≢◌, refl, Bool, false, ◌||◌, some, List, [], ◌∷◌, String, map, eq_iff, arith, filter,
  eq-false_of_ne, eq_refl, ne_of_eq-false, inl, inr, Bool-cases,
}
use cont_ained.Base.Dict.{Dict, lookup, lookup-insert}
use cont_ained.Workflow.Graph.{WorkflowNodeData}
use cont_ained.Workflow.Editor.{Editor}
use cont_ained.Workflow.Editor.Nodes.{
  Resource, bind_resource, lacks, bind_if, bind_node, auto_bind, unlinked, validation_status,
  dag_valid,
}

module _ (id_key name_key hub_id : String) (apart : name_key ≢ id_key)
    (alone : "hub_id" ≢ id_key) where
  lookup-bind_resource :
      (r : Resource) (d : Dict String)
      → lookup id_key (bind_resource id_key name_key hub_id r d) ≡ some r.id
  unfolding bind_resource
  lookup-bind_resource r d =
      rw (lookup-insert, eq-false_of_ne "hub_id" id_key alone)
        (rw (lookup-insert, eq-false_of_ne name_key id_key apart) (rw (lookup-insert, eq_refl)))

  -- A stage of the auto-binding leaves no node of its type without a resource.
  bind_if-linked :
      (node_type : String) (a : Resource) (as_ : List Resource) (n : WorkflowNodeData)
      → a.id ≢ ""
      → lacks node_type id_key (
          bind_if
            (lacks node_type id_key n)
            (λ r. bind_resource id_key name_key hub_id r n.config)
            (a ∷ as_)
            n)
        ≡ false
  bind_if-linked node_type a as_ n h = elim (Bool-cases (lacks node_type id_key n)) [
    | inr bound ↦ rw bound bound
    | inl open_ ↦ rw (open_, lookup-bind_resource, eq-false_of_ne a.id "" h) (ground arith)
  ]

-- The second stage does not undo the first: no node is of both types.
bind_if-other :
    (f : Resource → Dict String) (rs : List Resource) (m : WorkflowNodeData)
    → lacks "agent" "agent_id" m ≡ false
    → lacks "agent" "agent_id" (bind_if (lacks "eval" "suite_id" m) f rs m) ≡ false
bind_if-other f [] m h = elim (Bool-cases (lacks "eval" "suite_id" m)) [
  | inl open_ ↦ rw open_ h
  | inr bound ↦ rw bound h
]
bind_if-other f (r ∷ rs) m h = elim (Bool-cases (lacks "eval" "suite_id" m)) [
  | inr bound ↦ rw bound h
  | inl open_ ↦
      rw open_ (
        ground
          (arith, eq_iff m.node_type "eval", eq_iff m.node_type "agent", eq_iff "eval" "agent"))
]

module _ (hub_id : String) (a : Resource) (as_ : List Resource) (e : Resource) (es : List Resource)
    (named_a : a.id ≢ "") (named_e : e.id ≢ "") where
  bind_node-linked :
      (n : WorkflowNodeData) → unlinked (bind_node hub_id (a ∷ as_) (e ∷ es) n) ≡ false
  unfolding unlinked bind_node
  bind_node-linked n =
      let m : WorkflowNodeData =
        bind_if (lacks "agent" "agent_id" n)
          (λ r. bind_resource "agent_id" "agent_name" hub_id r n.config) (a ∷ as_) n in
      or-false
        (bind_if-other (λ r. bind_resource "suite_id" "suite_name" hub_id r m.config) (e ∷ es) m
          (bind_if-linked "agent_id" "agent_name" hub_id
            (ne_of_eq-false "agent_name" "agent_id" refl) (ne_of_eq-false "hub_id" "agent_id" refl)
            "agent" a as_ n named_a))
        (bind_if-linked "suite_id" "suite_name" hub_id (ne_of_eq-false "suite_name" "suite_id" refl)
          (ne_of_eq-false "hub_id" "suite_id" refl) "eval" e es m named_e)
    where
      or-false : {b c : Bool} → b ≡ false → c ≡ false → (b || c) ≡ false
      or-false p q = ground arith

  filter-linked :
      (ns : List WorkflowNodeData)
      → filter unlinked (map (bind_node hub_id (a ∷ as_) (e ∷ es)) ns) ≡ []
  filter-linked [] = refl
  filter-linked (n ∷ ns) = rw (bind_node-linked n, filter-linked ns)

  validation-bound :
      (ns : List WorkflowNodeData)
      → ns ≢ []
      → validation_status (map (bind_node hub_id (a ∷ as_) (e ∷ es)) ns) ≡ dag_valid
  unfolding validation_status
  validation-bound [] h = absurd (h refl)
  validation-bound (n ∷ ns) h = rw (filter-linked (n ∷ ns))

  -- Once agents and eval suites with ids are at hand, the auto-binding leaves no node that the
  -- badge counts as missing its resource: a canvas that is not empty is reported valid.
  pub auto_bind-valid :
      (s : Editor)
      → s.nodes ≢ []
      → validation_status (auto_bind hub_id (a ∷ as_) (e ∷ es) s).nodes ≡ dag_valid
  unfolding auto_bind
  auto_bind-valid s h = validation-bound s.nodes h
