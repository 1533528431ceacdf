-- ===== src/Workflow/Editor/Integrity.antt =====
-- The ends of the edges in WorkflowEditor.tsx, on the canvas and in the history.
use cont_ained.Base.{
  String, ◌≡◌, inl, inr, true, false, ◌&&◌, not, Option, none, some, List, [], ◌∷◌, ◌++◌, map,
  arith, ◌==◌, eq_iff, any, filter, find, All, All-append, if◌then◌else◌, Bool-cases, Option-cases,
  ℕ, All-filter,
}
use cont_ained.Workflow.Position.{Position}
use cont_ained.Workflow.Graph.{WorkflowEdge, WorkflowNodeData, Snapshot}
use cont_ained.Workflow.Canvas.{ConnectingStart, handle_end_connection}
use cont_ained.Workflow.Editor.{
  Editor, has_id, same_route, delete_node, delete_edge, add_edge, append_node, duplicate_node,
  update_node_position, begin_save, finish_save, push_history,
}
use cont_ained.Workflow.Editor.History.{graph}
use cont_ained.Workflow.Editor.Actions.{
  connect, Edit, appends, duplicates, deletes, connects, disconnects, apply_edit, Action, edits,
  moves, undoes, redoes, saves, save_ends, step,
}
use cont_ained.Workflow.Editor.Connect.{connect-cases}
use cont_ained.Workflow.Editor.Undo.{apply_edit-Effect}
use cont_ained.Workflow.Editor.Keeps.{Keeps, Effect-Keeps, undo-Keeps, redo-Keeps}

-- A node of the list has this id.
abbrev pub HasNode : List WorkflowNodeData → String → Type 0
HasNode ns id = any (has_id id) ns ≡ true

abbrev pub Joins : List WorkflowNodeData → WorkflowEdge → Type 0
Joins ns e = HasNode ns e.source × HasNode ns e.target

-- Every edge joins two nodes that are there.
abbrev pub NoDangling : Snapshot → Type 0
NoDangling g = All (Joins g.nodes) g.edges

HasNode-append :
    (ns : List WorkflowNodeData) (n : WorkflowNodeData) (id : String)
    → HasNode ns id
    → HasNode (ns ++ n ∷ []) id
HasNode-append [] n id h = cc
HasNode-append (m ∷ ns) n id h = ground (arith, HasNode-append ns n id)

HasNode-filter :
    (ns : List WorkflowNodeData) (gone id : String)
    → (id == gone) ≡ false
    → HasNode ns id
    → HasNode (filter (λ n. not (n.id == gone)) ns) id
HasNode-filter [] gone id k h = h
HasNode-filter (n ∷ ns) gone id k h =
    ground (arith, eq_iff n.id gone, eq_iff n.id id, eq_iff id gone, HasNode-filter ns gone id k)

HasNode-move :
    (ns : List WorkflowNodeData) (moved id : String) (p : Position)
    → HasNode ns id
    → HasNode (map (λ n. if n.id == moved then record n { position = p } else n) ns) id
HasNode-move [] moved id p h = h
HasNode-move (n ∷ ns) moved id p h = ground (arith, HasNode-move ns moved id p)

All-mono {ℓ κ} :
    {A : Type ℓ} (P Q : A → Type κ) (xs : List A) → ((x : A) → P x → Q x) → All P xs → All Q xs
All-mono P Q [] f h = tt
All-mono P Q (x ∷ xs) f h = (f x h.0, All-mono P Q xs f h.1)

module _ (ns : List WorkflowNodeData) (gone : String) where
  filter-Joins :
      (es : List WorkflowEdge)
      → All (Joins ns) es
      → All
          (Joins (filter (λ n. not (n.id == gone)) ns))
          (filter (λ e. not (e.source == gone) && not (e.target == gone)) es)
  filter-Joins [] h = tt
  filter-Joins (e ∷ es) h =
      ground (
        arith,
        filter-Joins es h.1,
        HasNode-filter ns gone e.source,
        HasNode-filter ns gone e.target,
      )

append_node-NoDangling :
    (n : WorkflowNodeData) (s : Editor)
    → NoDangling (graph s)
    → NoDangling (graph (append_node n s))
unfolding append_node push_history
append_node-NoDangling n s h =
    All-mono (Joins s.nodes) (Joins (s.nodes ++ n ∷ [])) s.edges
      (λ e j. (HasNode-append s.nodes n e.source j.0, HasNode-append s.nodes n e.target j.1)) h

duplicate_node-NoDangling :
    (new_id id : String) (s : Editor)
    → NoDangling (graph s)
    → NoDangling (graph (duplicate_node new_id id s))
unfolding duplicate_node
duplicate_node-NoDangling new_id id s h = elim (Option-cases (find (has_id id) s.nodes)) [
  | inl missing ↦ rw (missing, duplicate_node) h
  | inr (n, found) ↦ rw (found, duplicate_node) (append_node-NoDangling _ s h)
]

delete_node-NoDangling :
    (id : String) (s : Editor) → NoDangling (graph s) → NoDangling (graph (delete_node id s))
unfolding delete_node push_history
delete_node-NoDangling id s h = filter-Joins s.nodes id s.edges h

delete_edge-NoDangling :
    (id : String) (s : Editor) → NoDangling (graph s) → NoDangling (graph (delete_edge id s))
unfolding delete_edge push_history
delete_edge-NoDangling id s h = All-filter (Joins s.nodes) _ s.edges h

add_edge-NoDangling :
    (e : WorkflowEdge) (s : Editor)
    → Joins s.nodes e
    → NoDangling (graph s)
    → NoDangling (graph (add_edge e s))
unfolding add_edge push_history
add_edge-NoDangling e s j h = elim (Bool-cases (any (same_route e) s.edges)) [
  | inl old ↦ rw (old, add_edge) h
  | inr new ↦ rw (new, add_edge) (All-append (Joins s.nodes) s.edges (e ∷ []) h (j, tt))
]

update_node_position-NoDangling :
    (id : String) (p : Position) (s : Editor)
    → NoDangling (graph s)
    → NoDangling (graph (update_node_position id p s))
unfolding update_node_position
update_node_position-NoDangling id p s h =
    All-mono (Joins s.nodes) _ s.edges
      (λ e j. (HasNode-move s.nodes id e.source p j.0, HasNode-move s.nodes id e.target p j.1)) h

-- A draft is started on a card of the canvas and dropped on another: both nodes are there.
abbrev pub Fits : Action → Editor → Type 0
Fits (edits (connects fuel (some start) node_id port_id new_id)) s =
    HasNode s.nodes start.node_id × HasNode s.nodes node_id
Fits _ s = Unit

connect-NoDangling :
    (fuel : ℕ) (start : Option ConnectingStart) (node_id port_id new_id : String) (s : Editor)
    → Fits (edits (connects fuel start node_id port_id new_id)) s
    → NoDangling (graph s)
    → NoDangling (graph (connect fuel start node_id port_id new_id s))
connect-NoDangling fuel none node_id port_id new_id s f h =
    unfold connect handle_end_connection in h
connect-NoDangling fuel (some start) node_id port_id new_id s f h =
    elim (connect-cases fuel start node_id port_id new_id s) [
      | inl same ↦ rw same h
      | inr (no_, new) ↦ rw new (add_edge-NoDangling _ s f h)
    ]

apply_edit-NoDangling :
    (e : Edit) (s : Editor)
    → Fits (edits e) s
    → NoDangling (graph s)
    → NoDangling (graph (apply_edit e s))
unfolding apply_edit
apply_edit-NoDangling (appends n) s f h = append_node-NoDangling n s h
apply_edit-NoDangling (duplicates new_id id) s f h = duplicate_node-NoDangling new_id id s h
apply_edit-NoDangling (deletes id) s f h = delete_node-NoDangling id s h
apply_edit-NoDangling (connects fuel start node_id port_id new_id) s f h =
    connect-NoDangling fuel start node_id port_id new_id s f h
apply_edit-NoDangling (disconnects id) s f h = delete_edge-NoDangling id s h

-- Every action keeps the canvas and the whole history free of dangling edges, where a draft that
-- is dropped starts and ends at nodes of the canvas.
pub step-NoDangling :
    (a : Action) (s : Editor) → Fits a s → Keeps NoDangling s → Keeps NoDangling (step a s)
unfolding step update_node_position begin_save finish_save
step-NoDangling (edits e) s f k =
    Effect-Keeps NoDangling s (apply_edit e s) (apply_edit-Effect e s)
      (apply_edit-NoDangling e s f k.now) k
step-NoDangling (moves id p) s f k = record {
  now = update_node_position-NoDangling id p s k.now;
  past = k.past;
}
step-NoDangling undoes s f k = undo-Keeps NoDangling s k
step-NoDangling redoes s f k = redo-Keeps NoDangling s k
step-NoDangling saves s f k = record { now = k.now; past = k.past }
step-NoDangling (save_ends true) s f k = record { now = k.now; past = k.past }
step-NoDangling (save_ends false) s f k = record { now = k.now; past = k.past }
