-- ===== src/Workflow/Editor/Undo.antt =====
-- Undo and redo of the user's edits, WorkflowEditor.tsx.
use cont_ained.Base.{
  String, ◌-◌, ◌<◌, ◌≤◌, ◌≡◌, refl, sym, ap, ◌∙◌, ◌⊎◌, inl, inr, some, [], arith, get_elem?, any,
  find, Bool-cases, Option-cases,
}
use mathlib.Core.Path.{subst}
use cont_ained.Workflow.Position.{Position}
use cont_ained.Workflow.Graph.{Snapshot, WorkflowNodeData, WorkflowEdge}
use cont_ained.Workflow.Canvas.{handle_end_connection, ignored, cyclic_alert, diverges, Connection}
use cont_ained.Workflow.Canvas
use cont_ained.Workflow.Editor.{
  Editor, push_history, undo, redo, add_edge, append_node, duplicate_node, delete_node, delete_edge,
  same_route, update_node_position, has_id,
}
use cont_ained.Workflow.Editor.History.{
  graph, IsBounded, push_history-IsBounded, pushed_twice, length-push_capped, undo-pushed,
  redo-undo-pushed, pushed-current,
}
use cont_ained.Workflow.Editor.Actions.{
  connect, Edit, appends, duplicates, deletes, connects, disconnects, apply_edit,
}

-- An edit either leaves the editor as it was, or pushes its new graph over the same history.
pub data Effect (s u : Editor) : Type 0 where
  nothing : u ≡ s → Effect s u
  pushes :
      (t : Editor)
      → t.history ≡ s.history
      → t.cursor ≡ s.cursor
      → u ≡ push_history t.nodes t.edges t
      → Effect s u

append_node-Effect : (n : WorkflowNodeData) (s : Editor) → Effect s (append_node n s)
unfolding append_node
append_node-Effect n s = pushes _ refl refl refl

delete_node-Effect : (id : String) (s : Editor) → Effect s (delete_node id s)
unfolding delete_node
delete_node-Effect id s = pushes _ refl refl refl

delete_edge-Effect : (id : String) (s : Editor) → Effect s (delete_edge id s)
unfolding delete_edge
delete_edge-Effect id s = pushes _ refl refl refl

add_edge-Effect : (e : WorkflowEdge) (s : Editor) → Effect s (add_edge e s)
unfolding add_edge
add_edge-Effect e s = elim (Bool-cases (any (same_route e) s.edges)) [
  | inl there_ ↦ nothing (rw (there_, add_edge))
  | inr new ↦ rw (new, add_edge) (pushes _ refl refl refl)
]

duplicate_node-Effect : (new_id id : String) (s : Editor) → Effect s (duplicate_node new_id id s)
unfolding duplicate_node
duplicate_node-Effect new_id id s = elim (Option-cases (find (has_id id) s.nodes)) [
  | inl missing ↦ nothing (rw (missing, duplicate_node))
  | inr (n, found) ↦ rw (found, duplicate_node) (append_node-Effect _ s)
]

connect-Effect :
    (c : Connection) (s : Editor)
    → Effect s (elim c [ Canvas.Connection.add_edge e ↦ add_edge e s | _ ↦ s ])
connect-Effect (Canvas.Connection.add_edge e) s = add_edge-Effect e s
connect-Effect _ s = nothing refl

pub apply_edit-Effect : (e : Edit) (s : Editor) → Effect s (apply_edit e s)
unfolding apply_edit connect
apply_edit-Effect (appends n) s = append_node-Effect n s
apply_edit-Effect (duplicates new_id id) s = duplicate_node-Effect new_id id s
apply_edit-Effect (deletes id) s = delete_node-Effect id s
apply_edit-Effect (connects fuel start node_id port_id new_id) s =
    connect-Effect (handle_end_connection fuel s.edges start node_id port_id new_id) s
apply_edit-Effect (disconnects id) s = delete_edge-Effect id s

-- The snapshot under the cursor is `before`.
pub record IsAt (before : Snapshot) (s : Editor) : Type 0 where
  pub bounded : IsBounded s
  pub started : 0 < s.cursor
  pub current : get_elem? s.history (s.cursor - 1) ≡ some before

-- An edit that is not ignored, undone, gives back the snapshot under the cursor; redone after that
-- it stands again; and its own graph is the snapshot under the cursor afterwards.
pub record IsUndone (before : Snapshot) (u : Editor) : Type 0 where
  pub undone : graph (undo u) ≡ before
  pub redone : graph (redo (undo u)) ≡ graph u
  pub synced : IsAt (graph u) u

pushed-IsUndone :
    (before : Snapshot) (t : Editor)
    → IsAt before t
    → IsUndone before (push_history t.nodes t.edges t)
unfolding push_history
pushed-IsUndone before t v = record {
  undone = ap graph (undo-pushed t.nodes t.edges t before v.bounded v.started v.current);
  redone = ap graph (redo-undo-pushed t.nodes t.edges t before v.bounded v.started v.current);
  synced = record {
    bounded = push_history-IsBounded t.nodes t.edges t v.bounded;
    started = omega (arith, pushed_twice t.nodes t.edges t before v.bounded v.started v.current);
    current = pushed-current t.nodes t.edges t before v.bounded v.started v.current;
  };
}

IsAt-history :
    (before : Snapshot) (s t : Editor)
    → t.history ≡ s.history
    → t.cursor ≡ s.cursor
    → IsAt before s
    → IsAt before t
IsAt-history before s t h c v = record {
  bounded = record { capped = rw h v.bounded.capped; within = rw (h, c) v.bounded.within };
  started = rw c v.started;
  current = rw (h, c) v.current;
}

Effect-IsUndone :
    (before : Snapshot) (s u : Editor) → IsAt before s → Effect s u → (u ≡ s) ⊎ IsUndone before u
Effect-IsUndone before s u v (nothing e) = inl e
Effect-IsUndone before s u v (pushes t h c e) =
    inr (subst (IsUndone before) (sym e) (pushed-IsUndone before t (IsAt-history before s t h c v)))

-- In an editor whose bounded history has the snapshot `before` under the cursor, every edit is
-- ignored, or undo brings back `before`, redo after that brings back the edit, and the edited
-- graph is the snapshot under the cursor then.
pub apply_edit-IsUndone :
    (e : Edit) (before : Snapshot) (s : Editor)
    → IsAt before s
    → (apply_edit e s ≡ s) ⊎ IsUndone before (apply_edit e s)
apply_edit-IsUndone e before s v =
    Effect-IsUndone before s (apply_edit e s) v (apply_edit-Effect e s)

-- When the graph is the snapshot under the cursor and a node is dragged, the edit that follows is
-- ignored, or undoing it gives back the graph from before the drag.
pub undo_drops_move :
    (e : Edit) (s : Editor) (id : String) (p : Position)
    → IsAt (graph s) s
    → (apply_edit e (update_node_position id p s) ≡ update_node_position id p s)
      ⊎ (graph (undo (apply_edit e (update_node_position id p s))) ≡ graph s)
unfolding update_node_position
undo_drops_move e s id p v =
    elim (apply_edit-IsUndone e (graph s) (update_node_position id p s) moved) [
      | inl e' ↦ inl e'
      | inr r ↦ inr r.undone
    ]
  where
    moved : IsAt (graph s) (update_node_position id p s)
    moved = IsAt-history (graph s) s (update_node_position id p s) refl refl v

undo-low : (s : Editor) → s.cursor ≤ 1 → undo s ≡ s
unfolding undo
undo-low s h = ground arith

push_history-first :
    (t : Editor) → t.history ≡ [] → t.cursor ≡ 0 → (push_history t.nodes t.edges t).cursor ≤ 1
unfolding push_history
push_history-first t h c = omega (
  arith,
  length-push_capped t.cursor t.history (graph t) (omega (arith, c)) (rw h (omega arith)),
  c,
)

Effect-first : (s u : Editor) → s.history ≡ [] → s.cursor ≡ 0 → Effect s u → undo u ≡ u
Effect-first s u h c (nothing e) = rw e (undo-low s (omega (arith, c)))
Effect-first s u h c (pushes t h' c' e) =
    rw e (undo-low (push_history t.nodes t.edges t) (push_history-first t (h' ∙ h) (c' ∙ c)))

-- While the history is empty, as after loading a graph, undo changes nothing after an edit: the
-- first edit cannot be undone.
pub undo_first_edit :
    (e : Edit) (s : Editor) → s.history ≡ [] → s.cursor ≡ 0 → undo (apply_edit e s) ≡ apply_edit e s
undo_first_edit e s h c = Effect-first s (apply_edit e s) h c (apply_edit-Effect e s)
