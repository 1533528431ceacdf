-- ===== src/Workflow/Tests.antt =====
-- The workflow editor on small graphs.
use mathlib.Core.Path.{subst}
use cont_ained.Base.{
  ℕ, String, List, [], ◌∷◌, ◌≡◌, ◌≢◌, ◌∙◌, ◌⊎◌, refl, true, false, Option, none, some, arith, ◌<◌,
  ne_of_eq-false,
}
use cont_ained.Workflow.Position.{pos, Position}
use cont_ained.Workflow.Graph.{WorkflowEdge, WorkflowNodeData}
use cont_ained.Workflow.Canvas.{ConnectingStart, creates_cycle, handle_end_connection}
use cont_ained.Workflow.Canvas.Reach.{Leads, here, there, Reach, stay, walk}
use cont_ained.Workflow.Canvas.Rank.{Ranking-nil, Ranking-IsAcyclic}
use cont_ained.Workflow.Canvas.Diverges.{creates_cycle-diverges}
use cont_ained.Workflow.Editor.{
  Editor, saved, append_node, undo, overlaps, free_slot, slot, update_node_position,
}
use cont_ained.Workflow.Editor.History.{graph}
use cont_ained.Workflow.Editor.Actions.{
  appends, deletes, connects, apply_edit, connect, Action, edits, step, run,
}
use cont_ained.Workflow.Editor.Undo.{
  IsAt, IsUndone, apply_edit-IsUndone, undo_drops_move, undo_first_edit,
}
use cont_ained.Workflow.Editor.Keeps.{Keeps}
use cont_ained.Workflow.Editor.Integrity.{NoDangling, step-NoDangling}
use cont_ained.Workflow.Editor.Dag.{AcyclicGraph, RankedGraph, run-AcyclicGraph, run-decides}
use cont_ained.Workflow.Editor.Slots.{free_slot-cases}
use cont_ained.Workflow.Editor.Nodes.{Resource, auto_bind, validation_status, dag_valid}
use cont_ained.Workflow.Editor.Nodes.Binding.{auto_bind-valid}

abbrev origin : Position
origin = record { x = pos 80; y = pos 80 }

abbrev node : String → String → WorkflowNodeData
node id t = record {
  id = id;
  node_type = t;
  label = t;
  config = [];
  position = origin;
  ports = none;
}

abbrev edge : String → String → WorkflowEdge
edge a b = record { id = "e"; source = a; source_handle = "out"; target = b; target_handle = "in" }

abbrev blank : Editor
blank = record {
  nodes = [];
  edges = [];
  selected_node_id = none;
  is_dirty = false;
  save_status = saved;
  is_saving = false;
  history = [];
  cursor = 0;
}

abbrev from_port : String → Option ConnectingStart
from_port id = some (record { node_id = id; port_id = "out" })

-- Two nodes, an edge between them, and a drop that would close a cycle.
abbrev session : List Action
session =
    edits (appends (node "a" "start"))
    ∷ edits (appends (node "b" "agent"))
    ∷ edits (connects 9 (from_port "a") "b" "in" "e1")
    ∷ edits (connects 9 (from_port "b") "a" "in" "e2")
    ∷ []

session_test :
    (run session blank).edges
    ≡ record { id = "e1"; source = "a"; source_handle = "out"; target = "b"; target_handle = "in" }
      ∷ []
unfolding run step apply_edit connect handle_end_connection append_node
session_test = refl

blank-AcyclicGraph : Keeps AcyclicGraph blank
blank-AcyclicGraph = record { now = Ranking-IsAcyclic Ranking-nil; past = tt }

run-AcyclicGraph_example : Keeps AcyclicGraph (run session blank)
run-AcyclicGraph_example = run-AcyclicGraph session blank blank-AcyclicGraph

blank-RankedGraph : Keeps RankedGraph blank
blank-RankedGraph = record { now = Ranking-nil; past = tt }

run-decides_example :
    (fuel : ℕ) × ((src tgt : String)
      → ((creates_cycle fuel (run session blank).edges src tgt ≡ some true)
          × Reach (run session blank).edges tgt src)
        ⊎ ((creates_cycle fuel (run session blank).edges src tgt ≡ some false)
            × ¬ Reach (run session blank).edges tgt src))
run-decides_example = run-decides session blank blank-RankedGraph

-- One node on the canvas, as the history has it.
abbrev one : Editor
one = record blank {
  nodes = node "a" "agent" ∷ [];
  history = record { nodes = node "a" "agent" ∷ []; edges = [] } ∷ [];
  cursor = 1;
}

one-IsAt : IsAt (graph one) one
one-IsAt = record { bounded = omega arith; started = omega arith; current = refl }

apply_edit-IsUndone_example :
    (apply_edit (deletes "a") one ≡ one) ⊎ IsUndone (graph one) (apply_edit (deletes "a") one)
apply_edit-IsUndone_example = apply_edit-IsUndone (deletes "a") (graph one) one one-IsAt

abbrev corner : Position
corner = record { x = pos 500; y = pos 500 }

undo_drops_move_test :
    (apply_edit (appends (node "b" "eval")) (update_node_position "a" corner one)
      ≡ update_node_position "a" corner one)
    ⊎ (graph (undo (apply_edit (appends (node "b" "eval")) (update_node_position "a" corner one)))
        ≡ graph one)
undo_drops_move_test = undo_drops_move (appends (node "b" "eval")) one "a" corner one-IsAt

-- A graph that was loaded: the nodes are there and the history is empty.
abbrev loaded : Editor
loaded = record blank { nodes = node "a" "agent" ∷ node "b" "eval" ∷ [] }

undo_first_edit_test : undo (apply_edit (deletes "a") loaded) ≡ apply_edit (deletes "a") loaded
undo_first_edit_test = undo_first_edit (deletes "a") loaded refl refl

step-NoDangling_example :
    Keeps NoDangling (step (edits (connects 9 (from_port "a") "b" "in" "e1")) loaded)
step-NoDangling_example =
    step-NoDangling (edits (connects 9 (from_port "a") "b" "in" "e1")) loaded (refl, refl)
      (record { now = tt; past = tt })

free_slot-cases_example :
    (overlaps (origin ∷ []) (free_slot (origin ∷ [])) ≡ false)
    ⊎ ((free_slot (origin ∷ []) ≡ slot 0 0)
        × ((col row : ℕ) → col < 3 → row < 20 → overlaps (origin ∷ []) (slot col row) ≡ true))
free_slot-cases_example = free_slot-cases (origin ∷ [])

free_slot_test : free_slot (origin ∷ corner ∷ []) ≡ slot 1 0
unfolding free_slot overlaps
free_slot_test = refl

-- Two nodes that lead to each other, as a stored graph may have them.
abbrev ring : List WorkflowEdge
ring = edge "a" "b" ∷ edge "b" "a" ∷ []

ring-avoids_c : {y : String} → Leads ring y "c" → ⊥
ring-avoids_c (here s t) = ne_of_eq-false "b" "c" refl t
ring-avoids_c (there (here s t)) = ne_of_eq-false "a" "c" refl t
ring-avoids_c (there (there l)) = elim l [ ]

ring-unreached : {x y : String} → y ≡ "c" → x ≢ "c" → Reach ring x y → ⊥
ring-unreached h k (stay e) = k (e ∙ h)
ring-unreached h k (walk {x} {y} l r) =
    ring-unreached h (λ e. ring-avoids_c (subst (λ z. Leads ring x z) e l)) r

creates_cycle-diverges_test : creates_cycle 1000 ring "c" "a" ≡ none
creates_cycle-diverges_test =
    creates_cycle-diverges 1000 ring "c" "a" (ring-unreached refl (ne_of_eq-false "a" "c" refl))
      ("a", stay refl, ("b", here refl refl, walk (there (here refl refl)) (stay refl)))

abbrev agent_1 : Resource
agent_1 = record { id = "agent-1"; name = some "Helper"; hub_id = none }

abbrev suite_1 : Resource
suite_1 = record { id = "suite-1"; name = none; hub_id = some "hub-9" }

auto_bind-valid_example :
    validation_status (auto_bind "hub-1" (agent_1 ∷ []) (suite_1 ∷ []) loaded).nodes ≡ dag_valid
auto_bind-valid_example =
    auto_bind-valid "hub-1" agent_1 [] suite_1 [] (ne_of_eq-false "agent-1" "" refl)
      (ne_of_eq-false "suite-1" "" refl) loaded (λ e. cc)
